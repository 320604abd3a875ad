-- ===== src/Life/Moves.antt =====
-- The three things that a handler can do to the times and counts of a connection.
use native.Mathlib.Nat.{le_refl}
use wrk.Base.{ℕ, List, ◌+◌, ◌^◌, ◌≤◌, ◌<◌, refl, arith, inl, inr}
use wrk.Float.{Float}
use wrk.Hdr.{Hdr}
use wrk.Conn.{Config, Connection, Call}
use wrk.Pace.{due, delay_request}
use wrk.Writer.{WriteInput, begin_batch}
use wrk.Reader.{read_failed}
use wrk.Response.{settle}
use wrk.Life.Times.{
  SameTimes, reconnect_times, connected_times, write_times, pace_times, response_times,
}
use wrk.Life.{
  State, Handler, connected, write, delay, collect, respond, receive, read_error, Step, own, others,
}

module _ {F : Type 0} ⦃fl : Float F⦄ (cfg : Config) (clock later : ℕ) (c d : Connection F) where
  pub data Moved : Type 0 where
    stayed : SameTimes d c → Moved
    began :
        (i : WriteInput)
        → clock ≤ i.now
        → i.now ≤ i.start_time
        → i.start_time ≤ later
        → due c.thread_start c.complete c.throughput ≤ i.now
        → SameTimes d (begin_batch cfg i c)
        → Moved
    settled :
        0 < c.pending
        → c.pending < 2 ^ 64
        → c.complete + 1 < 2 ^ 64
        → SameTimes d (settle c).0
        → Moved

module _ {F : Type 0} where
  unchanged : (c : Connection F) → SameTimes c c
  unchanged c = (refl, refl, refl, refl, refl, refl, refl)

module _ {H F : Type 0} ⦃fl : Float F⦄ ⦃hdr : Hdr H⦄ (range : (x : F) → fl.to_u64 x < 2 ^ 64)
    (cfg : Config) where
  Handler-Moved :
      {s u : State H F} {calls : List Call}
      → Handler cfg s u calls
      → (s.clock ≤ u.clock) × Moved cfg s.clock u.clock s.conn u.conn
  unfolding delay_request read_failed
  Handler-Moved (connected s status a fd) =
      (le_refl _, stayed (connected_times status a fd s.thread s.conn))
  Handler-Moved (write s i fd l m n small) = (
    omega arith,
    elim (write_times range cfg i fd s.thread s.conn (omega arith)) [
      | inl same ↦ stayed same
      | inr (planned, same) ↦ began i l (omega arith) (le_refl _) planned same
    ],
  )
  Handler-Moved (delay s now l small) = (l, stayed (ground (arith, pace_times now s.conn)))
  Handler-Moved (collect s capture) = (le_refl _, stayed (unchanged s.conn))
  Handler-Moved (respond s i out l small busy few count e) = (
    l,
    elim (response_times cfg i s.thread s.conn e) [
      | inl same ↦ stayed same
      | inr same ↦ settled busy few count same
    ],
  )
  Handler-Moved (receive s count) = (le_refl _, stayed (unchanged s.conn))
  Handler-Moved (read_error s r) = (le_refl _, stayed (reconnect_times r.attempt _ s.conn))

  pub Step-Moved :
      {s u : State H F}
      → Step cfg s u
      → (s.clock ≤ u.clock) × Moved cfg s.clock u.clock s.conn u.conn
  Step-Moved (own h) = Handler-Moved h
  Step-Moved (others s now thread l) = (l, stayed (unchanged s.conn))

-- ===== src/Life/Times.antt =====
-- What the handlers leave alone of the times and counts of a batch.
use wrk.Base.{
  ℕ, ◌^◌, ◌≤◌, ◌<◌, ◌≡◌, some, List, arith, Option-cases, inl, inr, ◌⊎◌, ◌==◌, ==_iff, Bool-cases,
}
use wrk.Float.{Float}
use wrk.Hdr.{Hdr}
use wrk.Capture.{Capture, deliver}
use wrk.Conn.{Config, Connection, Thread, Call, Status, ok, error, retry, Out}
use wrk.Pace.{due, begin_catch_up, usec_to_next_send}
use wrk.Pace.Plan.{send_when_due}
use wrk.Socket.{Attempt, connect_socket, reconnect_socket, socket_connected}
use wrk.Writer.{WriteInput, count_write, begin_batch, write_some, socket_writeable}
use wrk.Response.{
  ResponseInput, count_response, script_calls, settle, record_latencies, account, response_complete,
}

-- The part of a connection that the plan is about.
module _ {F : Type 0} where
  abbrev pub SameTimes : Connection F → Connection F → Type 0
  SameTimes c d =
      (c.thread_start ≡ d.thread_start)
      × (c.throughput ≡ d.throughput)
      × (c.complete_at_last_batch_start ≡ d.complete_at_last_batch_start)
      × (c.actual_latency_start ≡ d.actual_latency_start)
      × (c.has_pending ≡ d.has_pending)
      × (c.pending ≡ d.pending)
      × (c.complete ≡ d.complete)

  settle_capture :
      (c : Connection F) (capture : Capture)
      → SameTimes (settle (record c { capture = capture })).0 (settle c).0
  unfolding settle
  settle_capture c capture = ground arith

module _ {H F : Type 0} where
  pub connect_times :
      (a : Attempt) (t : Thread H F) (c : Connection F) → SameTimes (connect_socket a t c).conn c
  unfolding connect_socket
  connect_times a t c = ground arith

  pub reconnect_times :
      (a : Attempt) (t : Thread H F) (c : Connection F) → SameTimes (reconnect_socket a t c).conn c
  unfolding reconnect_socket
  reconnect_times a t c = connect_times a t c

  pub connected_times :
      (s : Status) (a : Attempt) (fd : ℕ) (t : Thread H F) (c : Connection F)
      → SameTimes (socket_connected s a fd t c).conn c
  unfolding socket_connected
  connected_times ok a fd t c = ground arith
  connected_times error a fd t c = reconnect_times a _ c
  connected_times retry a fd t c = ground arith

  pub write_some_times :
      (i : WriteInput) (fd : ℕ) (t : Thread H F) (c : Connection F)
      → SameTimes (write_some i fd t c).conn c
  unfolding write_some
  write_some_times i fd t c =
      ground (arith, reconnect_times i.attempt (record t { errors = count_write t.errors }) c)

module _ {F : Type 0} ⦃fl : Float F⦄ where
  pub pace_times : (now : ℕ) (c : Connection F) → SameTimes (usec_to_next_send now c).1 c
  unfolding usec_to_next_send begin_catch_up
  pace_times now c = ground arith

  begin_batch_times :
      (cfg : Config) (i : WriteInput) (now : ℕ) (c : Connection F)
      → SameTimes (begin_batch cfg i (usec_to_next_send now c).1) (begin_batch cfg i c)
  unfolding begin_batch
  begin_batch_times cfg i now c = ground (arith, pace_times now c)

module _ {H F : Type 0} ⦃fl : Float F⦄ (range : (x : F) → fl.to_u64 x < 2 ^ 64) (cfg : Config) where
  -- The handler leaves these alone, or it begins a batch that is due.
  pub write_times :
      (i : WriteInput) (fd : ℕ) (t : Thread H F) (c : Connection F)
      → i.now < 2 ^ 64
      → let d = (socket_writeable cfg i fd t c).conn in
        SameTimes d c
        ⊎ ((due c.thread_start c.complete c.throughput ≤ i.now) × SameTimes d (begin_batch cfg i c))
  unfolding socket_writeable
  write_times i fd t c small =
      let (usec, c') = usec_to_next_send i.now c in
      elim (Bool-cases (c.written == 0)) [
        | inr rest ↦ rw rest (inl (write_some_times i fd t c))
        | inl first ↦ rw first (elim (Bool-cases (usec == 0)) [
          | inr n ↦ rw n (inl (pace_times i.now c))
          | inl z ↦ rw z (
              inr (
                ((send_when_due range i.now c small).0.0 ((==_iff _ _).0 z)).0,
                ground (
                  arith,
                  write_some_times i fd t (begin_batch cfg i c'),
                  begin_batch_times cfg i i.now c,
                ),
              ))
        ])
      ]

module _ {H F : Type 0} ⦃fl : Float F⦄ ⦃hdr : Hdr H⦄ (cfg : Config) where
  pub account_times :
      (i : ResponseInput) (t : Thread H F) (c : Connection F) (calls : List Call)
      → SameTimes (account cfg i t c calls).conn (settle c).0
  unfolding account
  account_times i t c calls =
      let (c', watch) = settle c in
      ground (arith, reconnect_times i.attempt (record_latencies cfg i.now t c') c')

  pub response_times :
      (i : ResponseInput) (t : Thread H F) (c : Connection F) {out : Out H F}
      → response_complete cfg i t c ≡ some out
      → SameTimes out.conn c ⊎ SameTimes out.conn (settle c).0
  unfolding response_complete
  response_times i t c e = elim (Option-cases (deliver i.status c.id c.capture)) [
    | inl fault ↦ absurd (ground arith)
    | inr ((call, capture), d) ↦ ground (
      arith,
      d,
      settle_capture c capture,
      account_times i (count_response i.status t) (record c { capture = capture })
          (script_calls call),
    )
  ]

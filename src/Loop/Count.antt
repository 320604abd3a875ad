-- ===== src/Loop/Count.antt =====
-- What the handlers count, and when they stop the loop.
use wrk.Base.{
  ℕ, ◌+◌, ◌%◌, ◌^◌, ◌≤◌, ◌<◌, ◌≡◌, refl, false, Option, some, ◌⊎◌, List, [], ◌∷◌, ◌++◌, arith,
  Option-cases, inl, inr, leb, Bool-cases,
}
use wrk.Float.{Float}
use wrk.Hdr.{Hdr}
use wrk.Capture.{Capture, ScriptCall, deliver}
use wrk.Conn.{Config, Connection, Thread, Call, parser_init, Out}
use wrk.Pace.{delay_request}
use wrk.Socket.{reconnect_socket}
use wrk.Response.{
  ResponseInput, count_response, script_calls, settle, record_latencies, account, response_complete,
}
use wrk.Life.{State, Handler, connected, write, delay, collect, respond, receive, read_error}
use wrk.Loop.Quiet.{
  SameCounts, IsQuiet, stops-append, script_quiet, reconnect-IsQuiet, connected-IsQuiet,
  failed-IsQuiet, complete-pace, delay_quiet, write-IsQuiet,
}
use wrk.Loop.{stops}

module _ {H F : Type 0} where
  -- The thread counts one response.
  abbrev pub CountsOne : Thread H F → Thread H F → Type 0
  CountsOne t u =
      (u.stop_at ≡ t.stop_at)
      × (u.connections ≡ t.connections)
      × (u.complete ≡ t.complete + 1)
      × (u.requests ≡ (t.requests + 1) % 2 ^ 64)

  -- What the thread and the connection count in a handler: no response; a response of the test; or
  -- one that comes when the test is over.
  pub data Tally (now : ℕ) (t : Thread H F) (c : Connection F) (out : Out H F) : Type 0 where
    none_counted : IsQuiet t c out → Tally now t c out
    counted :
        CountsOne t out.thread
        → out.conn.complete ≡ c.complete + 1
        → stops out.calls ≡ false
        → Tally now t c out
    over :
        CountsOne t out.thread
        → out.conn.complete ≡ c.complete
        → t.stop_at ≤ now
        → Tally now t c out

module _ {F : Type 0} where
  settle_lem :
      (c : Connection F)
      → c.complete + 1 < 2 ^ 64
      → ((settle c).0.complete ≡ c.complete + 1) × (stops (settle c).1 ≡ false)
  unfolding settle
  settle_lem c small = ground arith

module _ {H F : Type 0} ⦃fl : Float F⦄ ⦃hdr : Hdr H⦄ (cfg : Config) where
  count_response_lem :
      (status : ℕ) (t : Thread H F)
      → t.complete + 1 < 2 ^ 64
      → CountsOne t (count_response status t)
  unfolding count_response
  count_response_lem status t small = (refl, refl, omega arith, refl)

  record_counts :
      (now : ℕ) (t : Thread H F) (c : Connection F) → SameCounts (record_latencies cfg now t c) t
  unfolding record_latencies
  record_counts now t c = ground arith

  account_lem :
      (i : ResponseInput) (t : Thread H F) (c : Connection F) (calls : List Call)
      → stops calls ≡ false
      → c.complete + 1 < 2 ^ 64
      → let out = account cfg i t c calls in
        SameCounts out.thread t × (out.conn.complete ≡ c.complete + 1) × (stops out.calls ≡ false)
  unfolding account
  account_lem i t c calls quiet small =
      let (c', watch) = settle c in
      let t' = record_latencies cfg i.now t c' in
      let out = reconnect_socket i.attempt t' c' in
      ground (
        arith,
        settle_lem c small,
        record_counts i.now t c',
        reconnect-IsQuiet i.attempt t' c',
        stops-append calls (watch ++ parser_init ∷ []),
        stops-append watch (parser_init ∷ []),
        stops-append calls (watch ++ out.calls),
        stops-append watch out.calls,
      )

  pub ways_to_end :
      (i : ResponseInput) (t : Thread H F) (c : Connection F) {out : Out H F}
      → response_complete cfg i t c ≡ some out
      → ((t.stop_at ≤ i.now)
          × (out.thread ≡ count_response i.status t)
          × (out.conn.complete ≡ c.complete))
        ⊎ ((call : Option ScriptCall) × (capture : Capture) × (out
              ≡ account cfg i
                  (count_response i.status t)
                  (record c { capture = capture })
                  (script_calls call)))
  unfolding response_complete count_response
  ways_to_end i t c e = elim (Option-cases (deliver i.status c.id c.capture)) [
    | inl fault ↦ absurd (ground arith)
    | inr ((call, capture), d) ↦ elim (Bool-cases (leb t.stop_at i.now)) [
      | inl y ↦ inl (ground arith)
      | inr n ↦ inr (call, capture, ground arith)
    ]
  ]

  respond-Tally :
      (i : ResponseInput) (t : Thread H F) (c : Connection F) {out : Out H F}
      → t.complete + 1 < 2 ^ 64
      → c.complete + 1 < 2 ^ 64
      → response_complete cfg i t c ≡ some out
      → Tally i.now t c out
  respond-Tally i t c small few e =
      let one = count_response_lem i.status t small in
      elim (ways_to_end i t c e) [
        | inl (late, same, left) ↦ over (rw same one) left late
        | inr (call, capture, same) ↦
            let (kept, more, quiet) =
              account_lem i (count_response i.status t) (record c { capture = capture })
                (script_calls call) (script_quiet call) few in
            rw same (counted (ground arith) more quiet)
      ]

  pub Handler-Tally :
      {s u : State H F} {calls : List Call}
      → Handler cfg s u calls
      → s.thread.complete + 1 < 2 ^ 64
      → Tally u.clock s.thread s.conn (record { thread = u.thread; conn = u.conn; calls = calls })
  unfolding delay_request
  Handler-Tally (connected s status a fd) small =
      none_counted (connected-IsQuiet status a fd s.thread s.conn)
  Handler-Tally (write s i fd l m n k) small = none_counted (write-IsQuiet cfg i fd s.thread s.conn)
  Handler-Tally (delay s now l k) small =
      none_counted
        ((refl, refl, refl, refl), ground (arith, complete-pace now s.conn), delay_quiet now s.conn)
  Handler-Tally (collect s capture) small = none_counted ((refl, refl, refl, refl), refl, refl)
  Handler-Tally (respond s i out l k busy few count e) small =
      respond-Tally i s.thread s.conn small count e
  Handler-Tally (receive s count) small = none_counted ((refl, refl, refl, refl), refl, refl)
  Handler-Tally (read_error s r) small = none_counted (failed-IsQuiet r s.thread s.conn)

-- ===== src/Response.antt =====
-- The end of a response: `response_complete` of src/wrk.c.
pub mod Batch
pub mod Tests
use wrk.Base.{
  ℕ, ◌+◌, Bool, true, false, not, Option, none, some, List, [], ◌∷◌, ◌++◌, if◌then◌else◌, ◌&&◌,
  ◌||◌, ◌==◌, ltb, leb, add64, add32, sub64,
}
use wrk.Float.{Float}
use wrk.Hdr.{Hdr}
use wrk.Stats.{Errors}
use wrk.Capture.{Capture, ScriptCall, deliver}
use wrk.Conn.{
  Config, Connection, Thread, Call, create_file_event, stop_loop, parser_init, call_script,
  writable, on_writeable, Out,
}
use wrk.Pace.{due}
use wrk.Socket.{Attempt, reconnect_socket}

-- What the handler reads: the clock, the parser's status code and `http_should_keep_alive`, and the
-- answer to a reconnect.
pub record ResponseInput : Type 0 where
  pub now : ℕ
  pub status : ℕ
  pub keep_alive : Bool
  pub attempt : Attempt

abbrev pub count_status : ℕ → Errors → Errors
count_status status e = if ltb 399 status then record e { status = add32 e.status 1 } else e

abbrev pub script_calls : Option ScriptCall → List Call
script_calls none = []
script_calls (some call) = call_script call ∷ []

module _ {H F : Type 0} where
  -- The counters of the thread.
  unfoldable pub count_response : ℕ → Thread H F → Thread H F
  count_response status t = record t {
    complete = add64 t.complete 1;
    requests = add64 t.requests 1;
    errors = count_status status t.errors;
  }

module _ {F : Type 0} ⦃fl : Float F⦄ where
  -- The time since the batch was due by the plan, as the pattern of an int64_t.
  abbrev pub expected_latency : ℕ → Connection F → ℕ
  expected_latency now c =
      sub64 now (due c.thread_start c.complete_at_last_batch_start c.throughput)

module _ {F : Type 0} where
  -- From the count of the response up to `--c->pending`.
  unfoldable pub settle : Connection F → Connection F × List Call
  settle c =
      let pending' = sub64 c.pending 1 in
      let c' = record c {
        complete = add64 c.complete 1;
        latest_should_send_time = 0;
        latest_expected_start = 0;
        pending = pending';
      } in
      if pending' == 0
      then (record c' { has_pending = false }, create_file_event c.fd writable on_writeable ∷ [])
      else (c', [])

module _ {H F : Type 0} ⦃fl : Float F⦄ ⦃hdr : Hdr H⦄ where
  -- The recording of the two latencies; the connection is that after `settle`.
  unfoldable pub record_latencies : Config → ℕ → Thread H F → Connection F → Thread H F
  record_latencies cfg now t c =
      if cfg.record_all_responses || not c.has_pending
      then record t {
        latency_histogram = hdr.record_value t.latency_histogram (expected_latency now c);
        u_latency_histogram =
            hdr.record_value t.u_latency_histogram (sub64 now c.actual_latency_start);
      }
      else t

  -- What is done while the test is not over.
  unfoldable pub account : Config → ResponseInput → Thread H F → Connection F → List Call → Out H F
  account cfg i t c calls =
      let (c', watch) = settle c in
      let t' = record_latencies cfg i.now t c' in
      if i.keep_alive
      then record { thread = t'; conn = c'; calls = calls ++ (watch ++ parser_init ∷ []) }
      else (let out = reconnect_socket i.attempt t' c' in
          record out { calls = calls ++ (watch ++ out.calls) })

  -- `none` is a fault in the buffers.
  unfoldable pub response_complete :
      Config → ResponseInput → Thread H F → Connection F → Option (Out H F)
  response_complete cfg i t c =
      let t' = count_response i.status t in
      elim (deliver i.status c.id c.capture) [
        | none ↦ none
        | some (call, capture) ↦
            let c' = record c { capture = capture } in
            if leb t'.stop_at i.now
            then some
                (record { thread = t'; conn = c'; calls = script_calls call ++ stop_loop ∷ [] })
            else some (account cfg i t' c' (script_calls call))
      ]

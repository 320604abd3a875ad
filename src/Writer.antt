-- ===== src/Writer.antt =====
-- Sending: `socket_writeable` of src/wrk.c.
pub mod Writes
pub mod Send
pub mod Tests
use wrk.Base.{
  ℕ, ◌+◌, Bool, true, false, not, Option, none, some, List, [], ◌∷◌, ◌++◌, if◌then◌else◌, ◌&&◌,
  ◌==◌, add64, add32, sub64, length, drop, take,
}
use wrk.Float.{Float}
use wrk.Stats.{Errors}
use wrk.Conn.{
  Config, Connection, Thread, Call, create_time_event, delete_file_event, sock_write, writable,
  delay_proc, Status, ok, error, retry, Out,
}
use wrk.Pace.{usec_to_next_send, whole_ms}
use wrk.Socket.{Attempt, reconnect_socket}

-- What the handler reads: the clock of the pacing, the clocks at the write and at the start, the
-- text of `script_request`, what `sock.write` returns and writes, and the answer to a reconnect.
pub record WriteInput : Type 0 where
  pub now : ℕ
  pub write_time : ℕ
  pub start_time : ℕ
  pub script_text : List ℕ
  pub result : Status
  pub count : ℕ
  pub attempt : Attempt

abbrev pub count_write : Errors → Errors
count_write e = record e { write = add32 e.write 1 }

module _ {F : Type 0} where
  -- The start of a batch: the first request that is outstanding gives the batch its start.
  unfoldable pub begin_batch : Config → WriteInput → Connection F → Connection F
  begin_batch cfg i c =
      let c1 = record c { latest_write = i.write_time } in
      let c2 =
        if cfg.dynamic
        then record c1 { request = i.script_text; length = length i.script_text }
        else c1 in
      let c3 = record c2 { start = i.start_time } in
      let c4 = if c3.has_pending then c3 else record c3 {
        actual_latency_start = i.start_time;
        complete_at_last_batch_start = c3.complete;
        has_pending = true;
      } in
      record c4 { pending = cfg.pipeline }

module _ {F : Type 0} where
  -- The bytes from `c->request + c->written` on, `c->length - c->written` of them.
  abbrev pub rest_of_request : Connection F → List ℕ
  rest_of_request c = drop c.written (take c.length c.request)

module _ {H F : Type 0} where
  -- `sock.write` and what follows it.
  unfoldable pub write_some : WriteInput → ℕ → Thread H F → Connection F → Out H F
  write_some i fd t c =
      let sent = sock_write (rest_of_request c) in
      let written = add64 c.written i.count in
      elim i.result [
        | ok ↦
            if written == c.length
            then record {
              thread = t;
              conn = record c { written = 0 };
              calls = sent ∷ delete_file_event fd writable ∷ [];
            }
            else record { thread = t; conn = record c { written = written }; calls = sent ∷ [] }
        | error ↦
            (let out = reconnect_socket i.attempt (record t { errors = count_write t.errors }) c in
              record out { calls = sent ∷ out.calls })
        | retry ↦ record { thread = t; conn = c; calls = sent ∷ [] }
      ]

module _ {H F : Type 0} ⦃fl : Float F⦄ where
  unfoldable pub socket_writeable : Config → WriteInput → ℕ → Thread H F → Connection F → Out H F
  socket_writeable cfg i fd t c =
      if c.written == 0
      then (let (usec, c') = usec_to_next_send i.now c in
          if usec == 0 then write_some i fd t (begin_batch cfg i c') else record {
            thread = t;
            conn = c';
            calls =
                delete_file_event fd writable
                ∷ create_time_event (whole_ms fl usec) delay_proc
                ∷ [];
          })
      else write_some i fd t c

-- ===== src/Pace.antt =====
-- The pacing of requests: `usec_to_next_send` and `delay_request` of src/wrk.c.
pub mod Plan
pub mod Tests
use wrk.Base.{ℕ, ◌+◌, Bool, true, false, List, [], ◌∷◌, ltb, ◌==◌, if◌then◌else◌, sub64}
use wrk.Float.{Float, half}
use wrk.Conn.{Connection, Call, create_file_event, writable, on_writeable, Next, again, no_more}

-- `round((time_usec_to_wait / 1000.0L) + 0.5)`, converted to `int` where it is returned or stored.
abbrev pub whole_ms : {F : Type 0} → Float F → ℕ → ℕ
whole_ms fl usec =
    fl.to_int (fl.round (fl.fadd (fl.fdiv (fl.of_u64 usec) (fl.of_u64 1000)) (half fl)))

module _ {F : Type 0} ⦃fl : Float F⦄ where
  -- When `count` requests after the time `from` are due at a rate, cut to whole microseconds.
  abbrev pub due : ℕ → ℕ → F → ℕ
  due from count rate = fl.to_u64 (fl.fadd (fl.of_u64 from) (fl.fdiv (fl.of_u64 count) rate))

  -- The first time found behind the plan, a connection starts to catch up.
  unfoldable pub begin_catch_up : ℕ → Connection F → Connection F
  begin_catch_up now c =
      if c.caught_up
      then record c {
        caught_up = false;
        catch_up_start_time = now;
        complete_at_catch_up_start = c.complete;
      }
      else c

  -- The time when the next request is due at the catch-up rate.
  abbrev pub catch_up_due : Connection F → ℕ
  catch_up_due c =
      due c.catch_up_start_time (sub64 c.complete c.complete_at_catch_up_start)
        c.catch_up_throughput

  unfoldable pub usec_to_next_send : ℕ → Connection F → ℕ × Connection F
  usec_to_next_send now c =
      let planned = due c.thread_start c.complete c.throughput in
      if ltb now planned
      then (sub64 planned now, record c { caught_up = true })
      else (let c' = begin_catch_up now c in
          let next_start_time = catch_up_due c' in
          if ltb now next_start_time then (sub64 next_start_time now, c') else (
            0,
            record c' { latest_should_send_time = now; latest_expected_start = next_start_time },
          ))

  unfoldable pub delay_request : ℕ → Connection F → Next × Connection F × List Call
  delay_request now c =
      let (usec, c') = usec_to_next_send now c in
      if usec == 0
      then (no_more, c', create_file_event c.fd writable on_writeable ∷ [])
      else (again (whole_ms fl usec), c', [])

-- ===== src/Pace/Tests.antt =====
-- Runs of the pacing, and the theorems at a concrete connection.
use wrk.Base.{◌+◌, ◌<◌, ◌≤◌, ◌≡◌, ◌≢◌, ◌↔◌, refl, true, false, [], ◌∷◌, arith}
use wrk.Float.Ratio.{Ratio, ratio, ratio_float, ratio_range}
use wrk.Capture.{field, null_buffer}
use wrk.Conn.{Connection}
use wrk.Pace.{due, begin_catch_up, catch_up_due, usec_to_next_send}
use wrk.Pace.Plan.{send_when_due}

-- One request each 1000 microseconds; two are complete, of which none while catching up.
abbrev pub paced_connection : Connection Ratio
paced_connection = record {
  capture = record { state = field; headers = null_buffer; body = null_buffer };
  fd = 5;
  id = 0;
  throughput = ratio 1 1000;
  catch_up_throughput = ratio 1 500;
  complete = 2;
  complete_at_last_batch_start = 0;
  catch_up_start_time = 0;
  complete_at_catch_up_start = 0;
  thread_start = 10000;
  start = 10000;
  request = 71 ∷ 69 ∷ 84 ∷ [];
  length = 3;
  written = 0;
  pending = 0;
  actual_latency_start = 10000;
  has_pending = false;
  caught_up = true;
  latest_should_send_time = 0;
  latest_expected_start = 0;
  latest_connect = 9000;
  latest_write = 10000;
}

too_early : usec_to_next_send 11400 paced_connection ≡ (600, paced_connection)
unfolding usec_to_next_send
too_early = refl

send_when_due_example :
    let (usec, c') = usec_to_next_send 11400 paced_connection in
    ((usec ≡ 0) ↔ (
      (due 10000 2 (ratio 1 1000) ≤ 11400)
      × (catch_up_due (begin_catch_up 11400 paced_connection) ≤ 11400)))
    × (11400 < due 10000 2 (ratio 1 1000) → 11400 + usec ≡ due 10000 2 (ratio 1 1000))
    × (due 10000 2 (ratio 1 1000) ≤ 11400
        → usec ≢ 0
        → 11400 + usec ≡ catch_up_due (begin_catch_up 11400 paced_connection))
send_when_due_example = send_when_due ratio_range 11400 paced_connection (omega arith)

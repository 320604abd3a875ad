-- ===== src/Life/Tests.antt =====
-- The theorems on the life of a connection at a concrete run.
use wrk.Base.{ℕ, ◌+◌, ◌-◌, ◌*◌, ◌^◌, ◌<◌, ◌≤◌, ◌≡◌, refl, true, List, [], ◌∷◌, arith, sub64}
use wrk.Float.Ratio.{Ratio, ratio, ratio_float, ratio_range}
use wrk.Stats.Tests.{list_hdr}
use wrk.Conn.{Config, create_file_event, writable, on_writeable, no_more, ok}
use wrk.Args.{default_config}
use wrk.Pace.{due, whole_ms, delay_request, begin_catch_up, usec_to_next_send}
use wrk.Pace.Tests.{paced_connection}
use wrk.Timer.Tests.{test_thread}
use wrk.Writer.{WriteInput, begin_batch, write_some, socket_writeable}
use wrk.Response.{expected_latency}
use wrk.Life.{State, at, write, own, Reach, here, next}
use wrk.Life.Wait.{longest_wait}
use wrk.Life.Wake.{Asleep, put_off, woken}
use wrk.Life.Rate.{OnRate, Reach-OnRate}
use wrk.Life.Plan.{OnPlan, corrected_latency}

abbrev one_request : Config
one_request = record default_config { pipeline = 1; rate = 2000 }

abbrev before : State (List ℕ) Ratio
before = record { clock = 11000; thread = test_thread; conn = paced_connection }

before-OnPlan : OnPlan 11000 paced_connection
before-OnPlan = ground arith

-- The request that is due at 12000 is sent at 12500.
abbrev late_write : WriteInput
late_write = record {
  now = 12500;
  write_time = 12500;
  start_time = 12501;
  script_text = [];
  result = ok;
  count = 3;
  attempt = record { fd = 6; connects = true; now = 0; accepted = true };
}

abbrev after : State (List ℕ) Ratio
after = at 12501 (socket_writeable one_request late_write 5 test_thread paced_connection)

late_run : Reach one_request before after
late_run =
    next here
      (own (write before late_write 5 (omega arith) (omega arith) (omega arith) (omega arith)))

in_flight : after.conn.pending ≡ 1
unfolding socket_writeable usec_to_next_send begin_catch_up write_some begin_batch
in_flight = refl

corrected_latency_example :
    (expected_latency 13000 after.conn < 2 ^ 63)
    × (sub64 13000 after.conn.actual_latency_start ≤ expected_latency 13000 after.conn)
    × (expected_latency 13000 after.conn
        ≡ sub64 13000 after.conn.actual_latency_start
          + (after.conn.actual_latency_start
              - due after.conn.thread_start after.conn.complete_at_last_batch_start
                  after.conn.throughput))
corrected_latency_example =
    corrected_latency ratio_range one_request 13000 (omega arith) before-OnPlan late_run
      (omega arith) (omega arith) (omega (arith, in_flight))

abbrev early_write : WriteInput
early_write = record late_write { now = 11400; write_time = 11400; start_time = 11400 }

-- The request that is due at 12000 is put off at 11400.
asleep : Asleep (List ℕ) default_config (ratio 1 500) 0 11400 1 paced_connection
unfolding socket_writeable usec_to_next_send
asleep =
    put_off early_write 5 1 test_thread paced_connection (omega arith) (omega arith) refl
      (omega arith) refl

rounded_up : (usec : ℕ) → usec ≤ longest_wait → usec ≤ 1000 * whole_ms ratio_float usec
rounded_up usec small = omega arith

due_at_once : (t : ℕ) → t < 2 ^ 53 → due t 0 (ratio 1 500) ≡ t
due_at_once t small = omega arith

woken_example :
    let (answer, c', calls) = delay_request 12000 paced_connection in
    (0 ≤ 2)
    × (2 ≤ 0 → answer ≡ no_more)
    × (answer ≡ no_more
        → (calls ≡ create_file_event 5 writable on_writeable ∷ [])
          × (socket_writeable default_config late_write 5 test_thread c'
              ≡ write_some late_write 5 test_thread
                  (begin_batch default_config late_write (usec_to_next_send 12500 c').1)))
woken_example =
    woken ratio_range rounded_up default_config (ratio 1 500) due_at_once 12000 late_write 5
      test_thread asleep (omega arith) (omega arith) (omega arith)

before-OnRate : OnRate one_request 11000 paced_connection
before-OnRate = record {
  count = 1;
  planned = omega arith;
  limit = omega arith;
  in_batch = omega arith;
}

Reach-OnRate_example : OnRate one_request 12501 after.conn
Reach-OnRate_example = Reach-OnRate ratio_range one_request before-OnRate late_run

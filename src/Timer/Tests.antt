-- ===== src/Timer/Tests.antt =====
-- The theorems on timeouts at a concrete thread.
use wrk.Base.{ℕ, ◌/◌, ◌≤◌, ◌≡◌, ◌-◌, ◌^◌, refl, true, false, List, [], ◌∷◌, arith, sub64}
use wrk.Float.Ratio.{Ratio, ratio, ratio_float, ratio_at_least}
use wrk.Conn.{Connection, Thread, again}
use wrk.Args.{default_config}
use wrk.Pace.Tests.{paced_connection}
use wrk.Stats.Tests.{list_hdr, list_report}
use wrk.Timer.{check_timeouts, timeout_interval_ms, calibrate}
use wrk.Timer.Sample.{Sampling, begun, sample_elapsed}
use wrk.Timer.Timeouts.{check_timeouts_lem}

abbrev pub test_thread : Thread (List ℕ) Ratio
test_thread = record {
  connections = 2;
  interval = 10;
  stop_at = 30_000_000;
  complete = 5;
  requests = 5;
  bytes = 600;
  start = 9000;
  throughput = ratio 2000 1;
  mean = 0;
  latency_histogram = [];
  u_latency_histogram = [];
  errors = record { connect = 0; read = 0; write = 0; status = 0; timeout = 1 };
}

-- One connection wrote long ago, the other just now.
abbrev two_connections : List (Connection Ratio)
two_connections =
    paced_connection
    ∷ record paced_connection { start = 4_000_000; has_pending = true; pending = 1 }
    ∷ []

check_timeouts_lem_example :
    check_timeouts default_config false 5_000_000 two_connections test_thread ≡ (
      again timeout_interval_ms,
      record test_thread { errors = record (test_thread.errors) { timeout = 2 } },
      [],
    )
check_timeouts_lem_example =
    check_timeouts_lem default_config false 5_000_000 two_connections test_thread (omega arith)
      (omega arith) (omega arith)

-- A thread that has seen one latency, of 7 milliseconds.
abbrev measured_thread : Thread (List ℕ) Ratio
measured_thread = record test_thread { latency_histogram = 7000 ∷ [] }

abbrev sampling_thread : Thread (List ℕ) Ratio
sampling_thread = (calibrate 20_000_000 measured_thread).1

sampling : Sampling 20_000_000 14 sampling_thread
unfolding calibrate
sampling = begun 20_000_000 14 measured_thread refl refl

above_ten :
    (x : Ratio)
    → ratio_float.fle x (ratio 10 1) ≡ false
    → ratio_float.fle x (ratio (2 ^ 31 - 1) 1) ≡ true
    → 10 ≤ ratio_float.to_int x
above_ten x more fits = ratio_at_least x 10 (2 ^ 31 - 1) more fits (omega arith)

sample_elapsed_example : 9 ≤ sub64 20_014_000 sampling_thread.start / 1000
sample_elapsed_example =
    sample_elapsed refl above_ten 20_014_000 sampling (omega arith) (omega arith)

-- ===== src/Writer/Tests.antt =====
-- The theorem on sending at a concrete connection.
use wrk.Base.{ℕ, ◌≡◌, inl, inr, refl, false, true, [], ◌∷◌, arith}
use wrk.Float.Ratio.{ratio_float}
use wrk.Conn.{ok, retry}
use wrk.Args.{default_config}
use wrk.Pace.{begin_catch_up, usec_to_next_send}
use wrk.Pace.Tests.{paced_connection}
use wrk.Timer.Tests.{test_thread}
use wrk.Writer.{WriteInput}
use wrk.Writer.Writes.{sends}
use wrk.Writer.Send.{begun, request_sent}

abbrev write_of : ℕ → WriteInput
write_of n = record {
  now = 12500;
  write_time = 12500;
  start_time = 12501;
  script_text = [];
  result = ok;
  count = n;
  attempt = record { fd = 6; connects = true; now = 0; accepted = true };
}

due_now : (usec_to_next_send 12500 paced_connection).0 ≡ 0
unfolding usec_to_next_send begin_catch_up
due_now = refl

-- The three bytes go out as one, and after a retry two.
request_sent_example :
    sends default_config 5
      (write_of 1 ∷ record (write_of 0) { result = retry } ∷ write_of 2 ∷ [])
      test_thread
      paced_connection
    ≡ (
      71 ∷ 69 ∷ 84 ∷ [],
      false ∷ false ∷ true ∷ [],
      record (begun default_config (write_of 1) paced_connection) { written = 0 },
    )
request_sent_example =
    request_sent default_config 5 (write_of 1 ∷ record (write_of 0) { result = retry } ∷ [])
      (write_of 2) test_thread paced_connection (ground arith) (omega arith) refl due_now
      (ground arith) (inl (ground arith), (inr refl, tt)) (ground arith) (omega arith)

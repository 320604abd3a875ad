-- ===== src/Reader/Tests.antt =====
-- The theorems on receiving with a parser that takes all bytes.
use wrk.Base.{
  ℕ, zero, suc, ◌≡◌, refl, true, some, List, [], ◌∷◌, arith, length, ◌==◌, if◌then◌else◌,
  length-replicate, replicate,
}
use wrk.Float.Ratio.{Ratio, ratio_float}
use wrk.Stats.Tests.{list_hdr}
use wrk.Conn.{ok, Out}
use wrk.Args.{default_config}
use wrk.Capture.{response_body, buffer_append, grow}
use wrk.Capture.Events.{on_body, callback}
use wrk.Pace.Tests.{paced_connection}
use wrk.Timer.Tests.{test_thread}
use wrk.Reader.{ReadInput, Callback, collects, run_callbacks, socket_readable}
use wrk.Reader.Counts.{add_bytes}
use wrk.Reader.Loop.{Turns, full, last_taken, taken, Final, readable_lem}

-- A parser that takes all bytes and counts its calls; the bytes of the first are headers that are passed
-- over, and the others the body.
abbrev take_all : ℕ → List ℕ → ℕ × ℕ × List Callback
take_all p bytes = (length bytes, suc p, if p == 0 then [] else collects (on_body bytes) ∷ [])

abbrev read_of : List ℕ → ReadInput
read_of bytes = record {
  result = ok;
  bytes = bytes;
  more = 100;
  attempt = record { fd = 6; connects = true; now = 0; accepted = true };
}

-- A full buffer, and then three bytes.
abbrev two_reads : ℕ → ReadInput
two_reads zero = read_of (replicate 8192 0)
two_reads (suc i) = read_of (1 ∷ 2 ∷ 3 ∷ [])

abbrev answered : Out (List ℕ) Ratio
answered = record {
  thread = add_bytes 8192 test_thread;
  conn = record paced_connection {
    capture = record (paced_connection.capture) {
      body = record { length = 1024; written = 1 ∷ 2 ∷ 3 ∷ [] };
    };
  };
  calls = [];
}

two_turns : Turns default_config take_all taken 1 two_reads 0 test_thread paced_connection
unfolding run_callbacks callback response_body buffer_append grow
two_turns =
    full [] (record { thread = test_thread; conn = paced_connection; calls = [] })
      (refl, length-replicate {A = ℕ} 8192 0, omega arith) refl refl
      (last_taken (collects (on_body (1 ∷ 2 ∷ 3 ∷ [])) ∷ []) answered refl (λ h. ground arith) refl
        refl)

readable_lem_example :
    (p : ℕ) × (out : Out (List ℕ) Ratio) × (socket_readable default_config take_all 2 two_reads 0
        test_thread paced_connection
      ≡ some (p, out))
    × Final taken 1 two_reads out.thread 600 0
readable_lem_example = readable_lem default_config take_all 600 0 two_turns (ground arith)

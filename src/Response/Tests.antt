-- ===== src/Response/Tests.antt =====
-- The theorem on batches at a concrete connection.
use wrk.Base.{ℕ, ◌≡◌, refl, true, some, List, [], ◌∷◌, arith}
use wrk.Float.Ratio.{Ratio, ratio_float}
use wrk.Conn.{Connection, Out}
use wrk.Stats.Tests.{list_hdr}
use wrk.Args.{default_config}
use wrk.Socket.{Attempt}
use wrk.Pace.Tests.{paced_connection}
use wrk.Timer.Tests.{test_thread}
use wrk.Response.{ResponseInput}
use wrk.Response.Batch.{responses, IsBatch, batch_lem}

abbrev no_attempt : Attempt
no_attempt = record { fd = 6; connects = true; now = 0; accepted = true }

abbrev pub response_at : ℕ → ResponseInput
response_at now = record { now = now; status = 200; keep_alive = true; attempt = no_attempt }

-- A batch of two requests, due at 12000 and sent at 12500.
abbrev waiting : Connection Ratio
waiting = record paced_connection {
  complete_at_last_batch_start = 2;
  actual_latency_start = 12500;
  has_pending = true;
  pending = 2;
}

batch_lem_example :
    (out : Out (List ℕ) Ratio) × (responses default_config
        (response_at 12700 ∷ response_at 13000 ∷ [])
        test_thread
        waiting
      ≡ some out)
    × IsBatch default_config (response_at 12700 ∷ response_at 13000 ∷ []) test_thread waiting out
batch_lem_example =
    batch_lem default_config 30_000_000 (response_at 12700) (response_at 13000 ∷ []) test_thread
      waiting refl (ground arith) (ground arith) refl refl refl (omega arith)

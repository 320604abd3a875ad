-- ===== src/Main/Tests.antt =====
-- The theorems on the start and the end of a test at concrete threads.
use wrk.Base.{
  ℕ, zero, suc, ◌+◌, ◌<◌, ◌≡◌, ◌≢◌, ◌⊎◌, ◌↔◌, refl, true, false, none, some, List, [], ◌∷◌, arith,
  All, length, codes,
}
use wrk.Float.Ratio.{Ratio, ratio, ratio_float}
use wrk.Stats.Tests.{list_hdr, list_report}
use wrk.Conn.{Config, Thread}
use wrk.Args.{default_config, accepted}
use wrk.Url.{UrlParts, uf_schema, uf_host, uf_port, copy_url_part, script_parse_url}
use wrk.Url.Parts.{IsInside}
use wrk.Main.Setup.{Start, ssl_init, start, StartIs, start_lem}
use wrk.Args.Accept.{IsUsable}
use wrk.Timer.Tests.{test_thread}
use wrk.Verify.{requests, invalid, script_verify_request}
use wrk.Verify.Position.{verify_lem}
use wrk.Main.{no_errors, totals, running, launch}
use wrk.Main.Split.{connections_of, launch_lem}
use wrk.Main.Sums.{IsSum, totals_lem}

-- "G", a newline and "ET", of which the parser leaves the last byte.
verify_lem_example :
    let verdict = script_verify_request (71 ∷ 10 ∷ 69 ∷ 84 ∷ []) 3 1 in
    ((verdict ≡ requests 1) ↔ ((◌≡◌ {A = List ℕ} (84 ∷ []) []) × (◌≢◌ {A = ℕ} 1 0)))
    × ((◌≢◌ {A = List ℕ} (84 ∷ []) []) ⊎ (◌≡◌ {A = ℕ} 1 0) → verdict ≡ invalid 2 2)
verify_lem_example = verify_lem (71 ∷ 10 ∷ 69 ∷ []) (84 ∷ []) 1 (omega arith)

-- Three threads share ten connections.
abbrev three_threads : Config
three_threads = record default_config { threads = 3; rate = 300 }

three_threads-IsUsable : IsUsable three_threads
three_threads-IsUsable = ground arith

launch_lem_example :
    (ts : List (Thread (List ℕ) Ratio)) × (launch (λ k. true) (requests 1) true 5 three_threads
      ≡ running (record three_threads { pipeline = 1; dynamic = false }) ts)
    × (length ts ≡ 3)
    × (connections_of ts + 1 ≡ 10)
    × All (λ t. (0 < t.connections) × (t.throughput ≡ ratio 300 3) × (t.stop_at ≡ 10_000_005)) ts
launch_lem_example =
    launch_lem (λ k. true) 1 true 5 three_threads (λ k. refl) three_threads-IsUsable

totals_lem_example :
    IsSum
      (record {
        complete = 0;
        bytes = 0;
        errors = no_errors;
        latency_histogram = [];
        u_latency_histogram = [];
      })
      (test_thread ∷ test_thread ∷ [])
      (totals (test_thread ∷ test_thread ∷ []))
totals_lem_example = totals_lem (test_thread ∷ test_thread ∷ [])

-- "https://a" with its scheme and its host.
abbrev https_parts : UrlParts
https_parts = record { field_set = 3; field_data = (0, 5) ∷ (8, 1) ∷ [] }

abbrev https_url : List ℕ
https_url = codes "https://a"

https-IsInside : IsInside https_url https_parts
https-IsInside zero few h = (0, 5, refl, omega arith)
https-IsInside (suc zero) few h = (8, 1, refl, omega arith)
https-IsInside (suc (suc zero)) few h = ground arith
https-IsInside (suc (suc (suc zero))) few h = ground arith
https-IsInside (suc (suc (suc (suc zero)))) few h = ground arith
https-IsInside (suc (suc (suc (suc (suc zero))))) few h = ground arith
https-IsInside (suc (suc (suc (suc (suc (suc zero)))))) few h = ground arith
https-IsInside (suc (suc (suc (suc (suc (suc (suc n))))))) few h = ground arith

start_lem_example :
    (schema host service : List ℕ) × (s : Start) × (copy_url_part https_url https_parts uf_schema
      ≡ some (some schema))
    × (copy_url_part https_url https_parts uf_host ≡ some (some host))
    × ((copy_url_part https_url https_parts uf_port ≡ some (some service))
        ⊎ ((copy_url_part https_url https_parts uf_port ≡ some none) × (service ≡ schema)))
    × (start (accepted three_threads https_url https_parts []) (ssl_init 2 true true) (λ h s. true)
        ≡ some s)
    × StartIs s (ssl_init 2 true true) (λ h s. true) schema host service
unfolding script_parse_url
start_lem_example =
    start_lem (λ url. some https_parts) three_threads https_url https_parts []
      (ssl_init 2 true true) (λ h s. true) refl https-IsInside

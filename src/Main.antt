-- ===== src/Main.antt =====
-- `main` of src/wrk.c: how the threads are started, and the sums over them at the end.
pub mod Split
pub mod Sums
pub mod Setup
pub mod Report
pub mod Printed
pub mod Tests
use wrk.Base.{
  ℕ, zero, suc, ◌+◌, ◌-◌, ◌*◌, ◌^◌, ◌<◌, ◌≤◌, ◌%◌, ◌/◌, ◌≡◌, ◌≢◌, ◌↔◌, ◌⊎◌, inl, inr, refl, ap, ◌∙◌,
  sym, Bool, true, false, not, Option, none, some, List, [], ◌∷◌, ◌++◌, arith, All, length, sum,
  map, take, drop, sub64, add64, mul64, add32, if◌then◌else◌, leb, ltb, ◌==◌, ◌&&◌, ◌||◌,
  Bool-cases, Option-cases, length-append,
}
use wrk.Float.{Float}
use wrk.Hdr.{Hdr}
use wrk.Stats.{Errors, Stats, stats_alloc}
use wrk.Conn.{Config, Thread}
use wrk.Verify.{Verdict, requests, invalid}

abbrev pub no_errors : Errors
no_errors = record { connect = 0; read = 0; write = 0; status = 0; timeout = 0 }

module _ {H F : Type 0} ⦃fl : Float F⦄ ⦃hdr : Hdr H⦄ where
  -- A thread as `zcalloc` and the loop leave it; its histograms are made in `thread_main`.
  abbrev pub new_thread : Config → ℕ → Thread H F
  new_thread cfg stop_at = record {
    connections = cfg.connections / cfg.threads;
    interval = 0;
    stop_at = stop_at;
    complete = 0;
    requests = 0;
    bytes = 0;
    start = 0;
    throughput = fl.fdiv (fl.of_u64 cfg.rate) (fl.of_u64 cfg.threads);
    mean = 0;
    latency_histogram = hdr.empty_histogram;
    u_latency_histogram = hdr.empty_histogram;
    errors = no_errors;
  }

-- How the start ends: with all threads running, or with one of the two `exit` calls of the loop.
pub data Launch (H F : Type 0) : Type 0 where
  running : Config → List (Thread H F) → Launch H F
  bad_request : ℕ → ℕ → Launch H F
  no_thread : ℕ → Launch H F

module _ {H F : Type 0} where
  -- The loop for the `n` threads from `i` on; `creates` says whether the loop and the thread can be made.
  unfoldable pub create_threads :
      (ℕ → Bool) → Config → ℕ → ℕ → Thread H F → List (Thread H F) → Launch H F
  create_threads creates cfg zero i t ts = running cfg ts
  create_threads creates cfg (suc n) i t ts =
      let rest = create_threads creates cfg n (i + 1) t (ts ++ t ∷ []) in
      if creates i then rest else no_thread i

module _ {H F : Type 0} ⦃fl : Float F⦄ ⦃hdr : Hdr H⦄ where
  -- `static` is `script_is_static`. The check of the request comes with the first thread.
  unfoldable pub launch : (ℕ → Bool) → Verdict → Bool → ℕ → Config → Launch H F
  launch creates verdict static now cfg = elim verdict [
    | invalid line column ↦ bad_request line column
    | requests count ↦
        let cfg' = record cfg { pipeline = count; dynamic = not static } in
        create_threads creates cfg' cfg.threads 0
          (new_thread cfg (add64 now (mul64 cfg.duration 1_000_000))) []
  ]

abbrev pub add_errors : Errors → Errors → Errors
add_errors e f = record {
  connect = add32 e.connect f.connect;
  read = add32 e.read f.read;
  write = add32 e.write f.write;
  status = add32 e.status f.status;
  timeout = add32 e.timeout f.timeout;
}

-- The sums that `main` keeps.
pub record Totals (H : Type 0) : Type 0 where
  pub complete : ℕ
  pub bytes : ℕ
  pub errors : Errors
  pub latency_histogram : H
  pub u_latency_histogram : H

module _ {H F : Type 0} ⦃hdr : Hdr H⦄ where
  abbrev pub add_thread : Totals H → Thread H F → Totals H
  add_thread s t = record {
    complete = add64 s.complete t.complete;
    bytes = add64 s.bytes t.bytes;
    errors = add_errors s.errors t.errors;
    latency_histogram = hdr.add s.latency_histogram t.latency_histogram;
    u_latency_histogram = hdr.add s.u_latency_histogram t.u_latency_histogram;
  }

  -- The loop over the threads that have ended.
  unfoldable pub add_threads : Totals H → List (Thread H F) → Totals H
  add_threads s [] = s
  add_threads s (t ∷ ts) = add_threads (add_thread s t) ts

  unfoldable pub totals : List (Thread H F) → Totals H
  totals ts =
      add_threads
        (record {
          complete = 0;
          bytes = 0;
          errors = no_errors;
          latency_histogram = hdr.empty_histogram;
          u_latency_histogram = hdr.empty_histogram;
        })
        ts

module _ {H : Type 0} ⦃hdr : Hdr H⦄ where
  -- The statistics of the latencies that are printed and handed to the script.
  unfoldable pub latency_stats : Totals H → Stats H
  unfolding stats_alloc
  latency_stats s = record (stats_alloc 10) {
    min = hdr.hdr_min s.latency_histogram;
    max = hdr.hdr_max s.latency_histogram;
    histogram = some s.latency_histogram;
  }

-- The parts of the report, in order.
pub data Section : Type 0 where
  running_test stats_header latency_line rate_line : Section
  recorded_latency uncorrected_latency requests_line : Section
  socket_errors status_errors rates done_call : Section

-- `has_done` is `script_has_done`.
unfoldable pub report : Config → Bool → Errors → List Section
report cfg has_done e =
    (running_test ∷ stats_header ∷ latency_line ∷ rate_line ∷ [])
    ++ (if cfg.latency then recorded_latency ∷ [] else [])
    ++ (if cfg.u_latency then uncorrected_latency ∷ [] else [])
    ++ requests_line
      ∷ (if not (e.connect == 0) || not (e.read == 0) || not (e.write == 0) || not (e.timeout == 0)
          then socket_errors ∷ []
          else [])
    ++ (if not (e.status == 0) then status_errors ∷ [] else [])
    ++ rates ∷ (if has_done then done_call ∷ [] else [])

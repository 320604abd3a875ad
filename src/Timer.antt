-- ===== src/Timer.antt =====
-- The timers of a thread: `calibrate`, `check_timeouts` and `sample_rate` of src/wrk.c.
pub mod Timeouts
pub mod Sample
pub mod Tests
use wrk.Base.{
  ℕ, ◌+◌, ◌/◌, Bool, true, false, List, [], ◌∷◌, if◌then◌else◌, ◌||◌, ltb, leb, add32, sub64, mul64,
}
use wrk.Float.{Float}
use wrk.Hdr.{Hdr, HdrReport}
use wrk.Stats.{Errors, Stats, stats_record}
use wrk.Conn.{
  Config, Connection, Thread, Call, create_time_event, stop_loop, sample_proc, Next, again, no_more,
}

-- CALIBRATE_DELAY_MS and TIMEOUT_INTERVAL_MS.
abbrev pub calibrate_delay_ms : ℕ
calibrate_delay_ms = 10000

abbrev pub timeout_interval_ms : ℕ
timeout_interval_ms = 2000

abbrev pub count_timeout : Errors → Errors
count_timeout e = record e { timeout = add32 e.timeout 1 }

-- The loop of `check_timeouts` over the connections of the thread.
unfoldable pub timeouts : {F : Type 0} → ℕ → List (Connection F) → Errors → Errors
timeouts max_age [] e = e
timeouts max_age (c ∷ cs) e =
    timeouts max_age cs (if ltb c.start max_age then count_timeout e else e)

module _ {H F : Type 0} where
  unfoldable pub check_timeouts :
      Config → Bool → ℕ → List (Connection F) → Thread H F → Next × Thread H F × List Call
  check_timeouts cfg stop now cs t =
      let max_age = sub64 now (mul64 cfg.timeout 1000) in
      (
        again timeout_interval_ms,
        record t { errors = timeouts max_age cs t.errors },
        if stop || leb t.stop_at now then stop_loop ∷ [] else [],
      )

module _ {H F : Type 0} ⦃fl : Float F⦄ ⦃hdr : Hdr H⦄ ⦃report : HdrReport H F⦄ where
  -- `latency * 2`, the latency at 90% in milliseconds.
  abbrev pub twice_latency : H → F
  twice_latency h =
      fl.fmul (fl.fdiv (fl.of_i64 (report.value_at_percentile h (fl.of_u64 90))) (fl.of_u64 1000))
        (fl.of_u64 2)

  -- `MAX(latency * 2, 10)`
  abbrev pub sampling_interval : H → F
  sampling_interval h =
      let twice = twice_latency h in if fl.fle twice (fl.of_u64 10) then fl.of_u64 10 else twice

  unfoldable pub calibrate : ℕ → Thread H F → Next × Thread H F × List Call
  calibrate now t =
      let mean = report.hdr_mean t.latency_histogram in
      let interval = fl.to_int (sampling_interval t.latency_histogram) in
      if fl.feq mean (fl.of_u64 0) then (again calibrate_delay_ms, t, []) else (
        no_more,
        record t {
          mean = fl.to_u64 mean;
          latency_histogram = hdr.reset t.latency_histogram;
          u_latency_histogram = hdr.reset t.u_latency_histogram;
          start = now;
          interval = interval;
          requests = 0;
        },
        create_time_event interval sample_proc ∷ [],
      )

module _ {H F : Type 0} ⦃fl : Float F⦄ ⦃hdr : Hdr H⦄ where
  -- The rate since the last sample, which is recorded under the lock in the shared statistics.
  abbrev pub sampled_rate : ℕ → Thread H F → ℕ
  sampled_rate now t =
      let elapsed_ms = sub64 now t.start / 1000 in
      fl.to_u64 (fl.fmul (fl.fdiv (fl.of_u64 t.requests) (fl.of_u64 elapsed_ms)) (fl.of_u64 1000))

  unfoldable pub sample_rate : ℕ → ℕ → Thread H F → Stats H → Next × Thread H F × Stats H
  sample_rate now later t statistics = (
    again t.interval,
    record t { requests = 0; start = later },
    stats_record statistics (sampled_rate now t),
  )

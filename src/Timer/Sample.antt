-- ===== src/Timer/Sample.antt =====
-- The time between two samples of the rate.
use wrk.Base.{
  ℕ, ◌+◌, ◌*◌, ◌/◌, ◌^◌, ◌≤◌, ◌<◌, ◌≡◌, ◌-◌, inl, inr, refl, true, false, [], ◌∷◌, arith, sub64,
  Bool-cases,
}
use wrk.Float.{Float}
use wrk.Hdr.{Hdr, HdrReport}
use wrk.Stats.{Stats}
use wrk.Conn.{Thread, create_time_event, sample_proc, again}
use wrk.Timer.{twice_latency, sampling_interval, calibrate, sample_rate}

module _ {H F : Type 0} ⦃fl : Float F⦄ ⦃hdr : Hdr H⦄ ⦃report : HdrReport H F⦄ where
  -- A thread that samples its rate, whose timer was asked at `clock` for `ms` milliseconds: it was
  -- calibrated, handlers have run that leave the start of the sample alone, or it took a sample.
  pub data Sampling : ℕ → ℕ → Thread H F → Type 0 where
    begun :
        (now ms : ℕ) (t : Thread H F)
        → (calibrate now t).2 ≡ create_time_event ms sample_proc ∷ []
        → fl.fle (twice_latency t.latency_histogram) (fl.of_u64 (2 ^ 31 - 1)) ≡ true
        → Sampling now ms (calibrate now t).1
    ran :
        {clock ms : ℕ} {t : Thread H F} (u : Thread H F)
        → Sampling clock ms t
        → u.start ≡ t.start
        → u.interval ≡ t.interval
        → Sampling clock ms u
    took :
        {clock ms : ℕ} {t : Thread H F} (now later ms' : ℕ) (statistics : Stats H)
        → Sampling clock ms t
        → (clock / 1000 + ms) * 1000 ≤ now
        → now ≤ later
        → (sample_rate now later t statistics).0 ≡ again ms'
        → Sampling later ms' (sample_rate now later t statistics).1

  calibrate_lem :
      (now ms : ℕ) (t : Thread H F)
      → (calibrate now t).2 ≡ create_time_event ms sample_proc ∷ []
      → (ms ≡ fl.to_int (sampling_interval t.latency_histogram))
        × ((calibrate now t).1.start ≡ now)
        × ((calibrate now t).1.interval ≡ ms)
  unfolding calibrate
  calibrate_lem now ms t e = ground arith

  sample_rate_lem :
      (now later ms : ℕ) (t : Thread H F) (statistics : Stats H)
      → (sample_rate now later t statistics).0 ≡ again ms
      → (ms ≡ t.interval)
        × ((sample_rate now later t statistics).1.start ≡ later)
        × ((sample_rate now later t statistics).1.interval ≡ t.interval)
  unfolding sample_rate
  sample_rate_lem now later ms t statistics e = ground arith

  -- The interval is at least 10 milliseconds.
  at_least_ten :
      (ten : fl.to_int (fl.of_u64 10) ≡ 10)
      (cut : (x : F)
        → fl.fle x (fl.of_u64 10) ≡ false
        → fl.fle x (fl.of_u64 (2 ^ 31 - 1)) ≡ true
        → 10 ≤ fl.to_int x)
      (h : H)
      → fl.fle (twice_latency h) (fl.of_u64 (2 ^ 31 - 1)) ≡ true
      → 10 ≤ fl.to_int (sampling_interval h)
  at_least_ten ten cut h fits = elim (Bool-cases (fl.fle (twice_latency h) (fl.of_u64 10))) [
    | inl y ↦ rw (y, ten) (omega arith)
    | inr n ↦ rw n (cut (twice_latency h) n fits)
  ]

module _ {H F : Type 0} ⦃fl : Float F⦄ ⦃hdr : Hdr H⦄ ⦃report : HdrReport H F⦄
    (ten : fl.to_int (fl.of_u64 10) ≡ 10)
    (cut : (x : F)
      → fl.fle x (fl.of_u64 10) ≡ false
      → fl.fle x (fl.of_u64 (2 ^ 31 - 1)) ≡ true
      → 10 ≤ fl.to_int x) where
  Sampling-start :
      {clock ms : ℕ} {t : Thread H F}
      → Sampling clock ms t
      → (t.start ≡ clock) × (t.interval ≡ ms) × (10 ≤ ms)
  Sampling-start (begun now ms t e fits) =
      ground (arith, calibrate_lem now ms t e, at_least_ten ten cut t.latency_histogram fits)
  Sampling-start (ran u s e f) = ground (arith, Sampling-start s)
  Sampling-start (took {t = t} now later ms' statistics s l m e) =
      ground (arith, sample_rate_lem now later ms' t statistics e, Sampling-start s)

  -- The rate of a sample is never a quotient by 0: when the timer of a thread that samples fires,
  -- which is no earlier than asked for in whole milliseconds, and the clock is a 64-bit word, at
  -- least 9 whole milliseconds have gone by since the start of the sample. Of the arithmetic it is
  -- used that a number which compares as above 10 and within `int` is at least 10 when it is
  -- converted to `int`, and that 10 is 10; twice the latency at the calibration lies within `int`.
  pub sample_elapsed :
      {clock ms : ℕ} {t : Thread H F} (now : ℕ)
      → Sampling clock ms t
      → (clock / 1000 + ms) * 1000 ≤ now
      → now < 2 ^ 64
      → 9 ≤ sub64 now t.start / 1000
  sample_elapsed {clock} {ms} {t} now s l small =
      let (begin, same, ten_ms) = Sampling-start s in
      let d : sub64 now t.start ≡ sub64 now clock = rw begin refl in rw d (omega arith)

-- ===== src/Timer/Timeouts.antt =====
-- What `check_timeouts` counts.
use wrk.Base.{
  ℕ, suc, ◌+◌, ◌-◌, ◌*◌, ◌%◌, ◌^◌, ◌≤◌, ◌<◌, ◌≡◌, refl, Bool, false, ◌||◌, List, [], ◌∷◌, arith,
  if◌then◌else◌, ltb, leb, All, length, sub64, mul64,
}
use wrk.Stats.{Errors}
use wrk.Conn.{Config, Connection, Thread, stop_loop, again}
use wrk.Timer.{timeouts, count_timeout, check_timeouts, timeout_interval_ms}

-- The connections whose last write began more than `limit` microseconds before `now`.
abbrev pub late : {F : Type 0} → ℕ → ℕ → List (Connection F) → ℕ
late limit now [] = 0
late limit now (c ∷ cs) =
    let rest = late limit now cs in if ltb (c.start + limit) now then suc rest else rest

late-length :
    {F : Type 0} (limit now : ℕ) (cs : List (Connection F))
    → All (λ c. (c.has_pending ≡ false) × (c.start + limit < now)) cs
    → late limit now cs ≡ length cs
late-length limit now [] h = refl
late-length limit now (c ∷ cs) h = ground (arith, late-length limit now cs h.1)

timeouts_lem :
    {F : Type 0} (limit now : ℕ) (cs : List (Connection F)) (e : Errors)
    → limit ≤ now
    → e.timeout < 2 ^ 32
    → timeouts (now - limit) cs e ≡ record e { timeout = (e.timeout + late limit now cs) % 2 ^ 32 }
unfolding timeouts
timeouts_lem limit now [] e h small = ground arith
timeouts_lem limit now (c ∷ cs) e h small = ground (
  arith,
  timeouts_lem limit now cs e h small,
  timeouts_lem limit now cs (count_timeout e) h (omega arith),
)

module _ {H F : Type 0} where
  -- At a 64-bit time that is no less than the timeout, a check adds to the timeouts, modulo 2^32,
  -- the number of connections whose last write began longer ago than the timeout, changes nothing
  -- else, asks to run again after the interval, and stops the loop exactly when the test was
  -- interrupted or is over.
  pub check_timeouts_lem :
      (cfg : Config) (stop : Bool) (now : ℕ) (cs : List (Connection F)) (t : Thread H F)
      → cfg.timeout * 1000 ≤ now
      → now < 2 ^ 64
      → t.errors.timeout < 2 ^ 32
      → let e = t.errors in
        let late_now = late (cfg.timeout * 1000) now cs in
        check_timeouts cfg stop now cs t ≡ (
          again timeout_interval_ms,
          record t { errors = record e { timeout = (e.timeout + late_now) % 2 ^ 32 } },
          if stop || leb t.stop_at now then stop_loop ∷ [] else [],
        )
  unfolding check_timeouts
  check_timeouts_lem cfg stop now cs t old small count =
      let age : sub64 now (mul64 cfg.timeout 1000) ≡ now - cfg.timeout * 1000 = omega arith in
      rw age (rw (timeouts_lem (cfg.timeout * 1000) now cs t.errors old count))

  -- An idle connection is counted too: if every connection of the thread is idle and began its last
  -- write longer ago than the timeout, which is no more than the clock, then a check adds the
  -- number of connections to the timeouts, if that stays below 2^32.
  idle_timeouts :
      (cfg : Config) (stop : Bool) (now : ℕ) (cs : List (Connection F)) (t : Thread H F)
      → now < 2 ^ 64
      → All (λ c. (c.has_pending ≡ false) × (c.start + cfg.timeout * 1000 < now)) cs
      → t.errors.timeout + length cs < 2 ^ 32
      → cfg.timeout * 1000 ≤ now
      → (check_timeouts cfg stop now cs t).1.errors.timeout ≡ t.errors.timeout + length cs
  idle_timeouts cfg stop now cs t small idle count old =
      rw (check_timeouts_lem cfg stop now cs t old small (omega arith))
        (omega (arith, late-length (cfg.timeout * 1000) now cs idle))

-- ===== src/Life/Wait.antt =====
-- The wait of a connection whose next request is not due: what `usec_to_next_send` answers until it is.
use wrk.Base.{
  ℕ, suc, ◌+◌, ◌-◌, ◌*◌, ◌/◌, ◌^◌, ◌≤◌, ◌<◌, ◌≡◌, ◌≢◌, ◌↔◌, ◌⊎◌, inl, inr, refl, sym, true, false,
  [], ◌∷◌, arith, sub64, ==_iff,
}
use wrk.Float.{Float}
use wrk.Conn.{Connection, create_file_event, writable, on_writeable, again, no_more}
use wrk.Pace.{due, whole_ms, begin_catch_up, catch_up_due, usec_to_next_send, delay_request}

-- A wait, in microseconds, whose milliseconds lie within `int`: some 23 days.
abbrev pub longest_wait : ℕ
longest_wait = 2_000_000_000_000

-- A timer that is asked at `clock` for `ms` milliseconds fires no earlier than this, since ae.c
-- keeps whole milliseconds.
abbrev pub earliest : ℕ → ℕ → ℕ
earliest clock ms = (clock / 1000 + ms) * 1000

module _ {F : Type 0} ⦃fl : Float F⦄ where
  -- What a waiting connection waits for: its time by the plan, or by the catch-up plan.
  abbrev pub WaitsFor : ℕ → ℕ → Connection F → Type 0
  WaitsFor wake clock c =
      let planned = due c.thread_start c.complete c.throughput in
      ((c.caught_up ≡ true) × (wake ≡ planned))
      ⊎ ((c.caught_up ≡ false) × (planned ≤ clock) × (wake ≡ catch_up_due c))

module _ {F : Type 0} ⦃fl : Float F⦄ (range : (x : F) → fl.to_u64 x < 2 ^ 64) where
  starts_waiting :
      (now : ℕ) (c : Connection F)
      → now < 2 ^ 64
      → (usec_to_next_send now c).0 ≢ 0
      → let (usec, c') = usec_to_next_send now c in
        (now + usec < 2 ^ 64) × WaitsFor (now + usec) now c'
  unfolding usec_to_next_send begin_catch_up
  starts_waiting now c small n =
      let waits =
        range (fl.fadd (fl.of_u64 c.thread_start) (fl.fdiv (fl.of_u64 c.complete) c.throughput)) in
      let c' = begin_catch_up now c in
      let waits' = range (
        fl.fadd (fl.of_u64 c'.catch_up_start_time) (
          fl.fdiv (fl.of_u64 (sub64 c'.complete c'.complete_at_catch_up_start))
            c'.catch_up_throughput)) in
      ground arith

  keeps_waiting :
      (wake clock now : ℕ) (c : Connection F)
      → WaitsFor wake clock c
      → clock ≤ now
      → now < 2 ^ 53
      → c.complete < 2 ^ 64
      → due now 0 c.catch_up_throughput ≡ now
      → ((usec_to_next_send now c).0 ≡ wake - now)
        × (now < wake → WaitsFor wake now (usec_to_next_send now c).1)
  unfolding usec_to_next_send begin_catch_up
  keeps_waiting wake clock now c w l small count exact =
      let waits =
        range (fl.fadd (fl.of_u64 c.thread_start) (fl.fdiv (fl.of_u64 c.complete) c.throughput)) in
      let waits' = range (
        fl.fadd (fl.of_u64 c.catch_up_start_time) (
          fl.fdiv (fl.of_u64 (sub64 c.complete c.complete_at_catch_up_start))
            c.catch_up_throughput)) in
      let none_yet : sub64 c.complete c.complete ≡ 0 = omega arith in
      let fresh : due now (sub64 c.complete c.complete) c.catch_up_throughput ≡ now =
        rw none_yet exact in
      ground arith

  pub stays_due :
      (now later : ℕ) (c : Connection F)
      → now ≤ later
      → later < 2 ^ 64
      → (usec_to_next_send now c).0 ≡ 0
      → (usec_to_next_send later (usec_to_next_send now c).1).0 ≡ 0
  unfolding usec_to_next_send begin_catch_up
  stays_due now later c l small z =
      let waits =
        range (fl.fadd (fl.of_u64 c.thread_start) (fl.fdiv (fl.of_u64 c.complete) c.throughput)) in
      let waits' = range (
        fl.fadd (fl.of_u64 c.catch_up_start_time) (
          fl.fdiv (fl.of_u64 (sub64 c.complete c.complete_at_catch_up_start))
            c.catch_up_throughput)) in
      let waits'' = range (
        fl.fadd (fl.of_u64 now)
          (fl.fdiv (fl.of_u64 (sub64 c.complete c.complete)) c.catch_up_throughput)) in
      ground arith

module _ {F : Type 0} ⦃fl : Float F⦄ where
  pub pace_keeps :
      (now : ℕ) (c : Connection F)
      → let c' = (usec_to_next_send now c).1 in
        (c'.written ≡ c.written)
        × (c'.complete ≡ c.complete)
        × (c'.fd ≡ c.fd)
        × (c'.catch_up_throughput ≡ c.catch_up_throughput)
  unfolding usec_to_next_send begin_catch_up
  pace_keeps now c = ground arith

  pub delay_lem :
      (now : ℕ) (c : Connection F)
      → let (usec, c') = usec_to_next_send now c in
        ((delay_request now c).1 ≡ c')
        × ((usec ≡ 0) ↔ ((delay_request now c).0 ≡ no_more))
        × (usec ≡ 0 → (delay_request now c).2 ≡ create_file_event c.fd writable on_writeable ∷ [])
        × ((ms : ℕ) → (delay_request now c).0 ≡ again ms → (usec ≢ 0) × (ms ≡ whole_ms fl usec))
  unfolding delay_request
  delay_lem now c =
      let test = ==_iff (usec_to_next_send now c).0 0 in
      (
        ground arith,
        (λ z. ground arith, λ e. ground arith),
        λ z. ground arith,
        λ ms e. ground arith,
      )

  -- The state of a wait; each firing brings it a millisecond nearer to its end.
  pub record Waiting (rate : F) (n clock ms : ℕ) (c : Connection F) : Type 0 where
    pub wake : ℕ
    pub wake_small : wake < 2 ^ 64
    pub ahead : clock < wake
    pub asked : wake - clock ≤ 1000 * ms
    pub short : wake ≤ clock + longest_wait
    pub near : (n ≡ 0) ⊎ (wake / 1000 + n ≤ clock / 1000 + 2)
    pub waits : WaitsFor wake clock c
    pub unwritten : c.written ≡ 0
    pub now_small : clock < 2 ^ 53
    pub count_small : c.complete < 2 ^ 64
    pub same_rate : c.catch_up_throughput ≡ rate

nearer :
    (n wake clock now ms : ℕ)
    → clock < wake
    → wake - clock ≤ 1000 * ms
    → (n ≡ 0) ⊎ (wake / 1000 + n ≤ clock / 1000 + 2)
    → earliest clock ms ≤ now
    → (clock ≤ now) × (n ≤ 2) × (wake / 1000 + suc n ≤ now / 1000 + 2)
nearer n wake clock now ms ahead asked (inl e) l = (omega arith, omega arith, omega arith)
nearer n wake clock now ms ahead asked (inr e) l = (omega arith, omega arith, omega arith)

module _ {F : Type 0} ⦃fl : Float F⦄ (range : (x : F) → fl.to_u64 x < 2 ^ 64)
    (enough : (usec : ℕ) → usec ≤ longest_wait → usec ≤ 1000 * whole_ms fl usec) (rate : F)
    (exact : (t : ℕ) → t < 2 ^ 53 → due t 0 rate ≡ t) where
  pub first_wait :
      (now : ℕ) (c : Connection F)
      → c.written ≡ 0
      → now < 2 ^ 53
      → c.complete < 2 ^ 64
      → c.catch_up_throughput ≡ rate
      → let (usec, c') = usec_to_next_send now c in
        usec ≢ 0 → usec ≤ longest_wait → Waiting rate 0 now (whole_ms fl usec) c'
  first_wait now c none_written small count same more short =
      let (usec, c') = usec_to_next_send now c in
      let (wake_small, waits) = starts_waiting range now c (omega arith) more in
      let kept = pace_keeps now c in
      record {
        wake = now + usec;
        wake_small = wake_small;
        ahead = omega arith;
        asked = omega (arith, enough usec short);
        short = omega (arith, short);
        near = inl refl;
        waits = waits;
        unwritten = ground arith;
        now_small = small;
        count_small = ground arith;
        same_rate = ground arith;
      }

  pub wait_on :
      {n clock ms : ℕ} {c : Connection F} (now : ℕ)
      → Waiting rate n clock ms c
      → earliest clock ms ≤ now
      → now < 2 ^ 53
      → let (usec, c') = usec_to_next_send now c in
        (usec ≢ 0 → Waiting rate (suc n) now (whole_ms fl usec) c') × (n ≤ 2) × (2 ≤ n → usec ≡ 0)
  wait_on {n} {clock} {ms} {c} now w later small =
      let (usec, c') = usec_to_next_send now c in
      let exact' : due now 0 c.catch_up_throughput ≡ now = rw w.same_rate (exact now small) in
      let (l, few, near) = nearer n w.wake clock now ms w.ahead w.asked w.near later in
      let (left, still) =
        keeps_waiting range w.wake clock now c w.waits l small w.count_small exact' in
      let same = pace_keeps now c in
      (
        λ more. record {
          wake = w.wake;
          wake_small = w.wake_small;
          ahead = omega arith;
          asked = rw (sym left) (enough usec (omega (arith, w.short)));
          short = omega (arith, w.short);
          near = inr near;
          waits = still (omega arith);
          unwritten = ground arith;
          now_small = small;
          count_small = ground arith;
          same_rate = ground arith;
        },
        few,
        λ h. omega arith,
      )

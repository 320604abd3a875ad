-- ===== src/Pace/Plan.antt =====
-- No request is sent ahead of the plan.
use wrk.Base.{ℕ, ◌+◌, ◌^◌, ◌≤◌, ◌<◌, ◌≡◌, ◌≢◌, ◌↔◌, ap, true, false, arith, sub64}
use wrk.Float.{Float}
use wrk.Conn.{Connection}
use wrk.Pace.{due, begin_catch_up, catch_up_due, usec_to_next_send}

module _ {F : Type 0} ⦃fl : Float F⦄ (range : (x : F) → fl.to_u64 x < 2 ^ 64) where
  -- At a 64-bit time, and with conversions to uint64_t that give a 64-bit word, a request may be
  -- sent exactly when it is due by the plan and by the catch-up plan that then holds; ahead of the
  -- plan the answer is the exact time until it is due, and behind it, if it is not 0, the exact
  -- time until the catch-up plan has it due.
  pub send_when_due :
      (now : ℕ) (c : Connection F)
      → now < 2 ^ 64
      → let (usec, c') = usec_to_next_send now c in
        let planned = due c.thread_start c.complete c.throughput in
        ((usec ≡ 0) ↔ ((planned ≤ now) × (catch_up_due (begin_catch_up now c) ≤ now)))
        × (now < planned → now + usec ≡ planned)
        × (planned ≤ now → usec ≢ 0 → now + usec ≡ catch_up_due (begin_catch_up now c))
  unfolding usec_to_next_send
  send_when_due now c small =
      let c' = begin_catch_up now c in
      let waits =
        range (fl.fadd (fl.of_u64 c.thread_start) (fl.fdiv (fl.of_u64 c.complete) c.throughput)) in
      let waits' = range (
        fl.fadd (fl.of_u64 c'.catch_up_start_time) (
          fl.fdiv (fl.of_u64 (sub64 c'.complete c'.complete_at_catch_up_start))
            c'.catch_up_throughput)) in
      ((λ e. ground arith, λ e. ground arith), λ h. ground arith, λ h k. ground arith)

module _ {F : Type 0} ⦃fl : Float F⦄ where
  -- The count at which catching up began is behind the current count.
  abbrev pub IsPaced : Connection F → Type 0
  IsPaced c = c.caught_up ≡ false → c.complete_at_catch_up_start ≤ c.complete

  -- Looking at the clock changes only the record of the pace. It keeps that record sound; after it
  -- the connection is marked as caught up exactly when it is ahead of the plan; and a connection
  -- that has just fallen behind catches up from now on, from its present count.
  pace_record :
      (now : ℕ) (c : Connection F)
      → IsPaced c
      → let c' = (usec_to_next_send now c).1 in
        let planned = due c.thread_start c.complete c.throughput in
        IsPaced c'
        × ((c'.caught_up ≡ true) ↔ (now < planned))
        × (planned ≤ now
            → c.caught_up ≡ true
            → (c'.catch_up_start_time ≡ now) × (c'.complete_at_catch_up_start ≡ c.complete))
        × (record c' {
          caught_up = c.caught_up;
          catch_up_start_time = c.catch_up_start_time;
          complete_at_catch_up_start = c.complete_at_catch_up_start;
          latest_should_send_time = c.latest_should_send_time;
          latest_expected_start = c.latest_expected_start;
        }
            ≡ c)
  unfolding usec_to_next_send begin_catch_up
  pace_record now c p = ground arith

  -- A connection that was on pace and has just fallen behind sends at once, if at the catch-up rate
  -- a request that is due `now` and 0 requests later comes out as `now`.
  pub first_behind_sends :
      (now : ℕ) (c : Connection F)
      → c.caught_up ≡ true
      → due c.thread_start c.complete c.throughput ≤ now
      → now < 2 ^ 64
      → c.complete < 2 ^ 64
      → due now 0 c.catch_up_throughput ≡ now
      → (usec_to_next_send now c).0 ≡ 0
  unfolding usec_to_next_send begin_catch_up
  first_behind_sends now c on_pace behind small count exact =
      let none_yet : sub64 c.complete c.complete ≡ 0 = omega arith in
      ground (arith, ap (λ n. due now n c.catch_up_throughput) none_yet)

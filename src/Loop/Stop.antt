-- ===== src/Loop/Stop.antt =====
-- When the event loop of a thread stops.
use native.Mathlib.Nat.{le_refl, le_trans}
use wrk.Base.{
  ℕ, ◌+◌, ◌*◌, ◌/◌, ◌^◌, ◌≤◌, ◌<◌, ◌≡◌, refl, true, false, some, get_elem?, List, arith, ◌⊎◌, inr,
}
use wrk.Float.{Float}
use wrk.Hdr.{Hdr, HdrReport}
use wrk.Conn.{Config, Connection, Thread, Call, Out}
use wrk.Socket.{delayed_initial_connect}
use wrk.Worker.{StartInput, thread_main}
use wrk.Life.{State, at, Handler, own}
use wrk.Life.Moves.{Step-Moved}
use wrk.Loop.Quiet.{initial-IsQuiet}
use wrk.Loop.Count.{Tally, none_counted, counted, over, Handler-Tally}
use wrk.Loop.Timers.{check_keeps, check_stops, calibrate_keeps, sample_keeps}
use wrk.Loop.{
  stops, Loop, interrupt, connections, state, after, started_loop, Step, opened, handled,
  stopped_by_script, thread_stop, checked, calibrated, sampled, interrupted, Reach, here, next,
}

module _ {H F : Type 0} where
  -- A loop that stops at `stop_at` and checks for the first time at `first`.
  record IsTimed (stop_at first : ℕ) (w : Loop H F) : Type 0 where
    limit : w.thread.stop_at ≡ stop_at
    cause : w.stopped ≡ true → (w.stop ≡ true) ⊎ (stop_at ≤ w.clock) ⊎ (w.asked ≡ true)
    overdue : w.stopped ≡ false → (w.check_due ≤ first) ⊎ (w.check_due < stop_at + 2_000_000)
    upcoming : (w.check_due ≤ first) ⊎ (w.check_due ≤ w.clock + 2_000_000)

  Tally-stops :
      {now : ℕ} {t : Thread H F} {c : Connection F} {out : Out H F}
      → Tally now t c out
      → (out.thread.stop_at ≡ t.stop_at) × (stops out.calls ≡ true → t.stop_at ≤ now)
  Tally-stops (none_counted q) = ground arith
  Tally-stops (counted q e n) = ground arith
  Tally-stops (over q e n) = ground arith

  after-IsTimed :
      {stop_at first : ℕ} {w : Loop H F} (i : ℕ) (u : State H F) (calls : List Call)
      → w.clock ≤ u.clock
      → (u.thread.stop_at ≡ w.thread.stop_at) × (stops calls ≡ true → w.thread.stop_at ≤ u.clock)
      → IsTimed stop_at first w
      → IsTimed stop_at first (after w i u calls)
  after-IsTimed i u calls l s p = ground arith

  stop-IsTimed :
      {stop_at first : ℕ} {w : Loop H F}
      → IsTimed stop_at first w
      → IsTimed stop_at first (thread_stop w)
  unfolding thread_stop
  stop-IsTimed p = record {
    limit = p.limit;
    cause = λ e. inr (inr refl);
    overdue = λ e. absurd (ground arith);
    upcoming = p.upcoming;
  }

  timer-IsTimed :
      {stop_at first : ℕ} {w : Loop H F} (later : ℕ) (t : Thread H F)
      → w.clock ≤ later
      → t.stop_at ≡ w.thread.stop_at
      → IsTimed stop_at first w
      → IsTimed stop_at first (record w { clock = later; thread = t })
  timer-IsTimed later t l s p = ground arith

module _ {H F : Type 0} ⦃fl : Float F⦄ ⦃hdr : Hdr H⦄ ⦃report : HdrReport H F⦄
    (range : (x : F) → fl.to_u64 x < 2 ^ 64) (cfg : Config) where
  handled-IsTimed :
      {stop_at first : ℕ} {w : Loop H F} (i : ℕ) (c : Connection F) {u : State H F}
      {calls : List Call}
      → get_elem? w.slots i ≡ some (record { started = true; conn = c })
      → w.thread.complete + 1 < 2 ^ 64
      → Handler cfg (state w c) u calls
      → IsTimed stop_at first w
      → (w.clock ≤ u.clock) × IsTimed stop_at first (after w i u calls)
  handled-IsTimed i c {u} {calls} e small h p =
      let (l, moved) = Step-Moved range cfg (own h) in
      (l, after-IsTimed i u calls l (Tally-stops (Handler-Tally cfg h small)) p)

  Step-IsTimed :
      {stop_at first : ℕ} {w v : Loop H F}
      → Step cfg w v
      → IsTimed stop_at first w
      → (w.clock ≤ v.clock) × IsTimed stop_at first v
  unfolding interrupt thread_stop
  Step-IsTimed (opened w i c now a e l small) p = (
    l,
    after-IsTimed i (at now (delayed_initial_connect now a w.thread c).1)
        (delayed_initial_connect now a w.thread c).1.calls l
        (ground (arith, initial-IsQuiet now a w.thread c)) p,
  )
  Step-IsTimed (handled w i c {u} {calls} e small h) p = handled-IsTimed i c e small h p
  Step-IsTimed (stopped_by_script w i c {u} {calls} e small h runs) p =
      let (l, q) = handled-IsTimed i c e small h p in (l, stop-IsTimed q)
  Step-IsTimed {stop_at} {first} (checked w now l) p =
      let quit = check_stops cfg w.stop now (connections w) w.thread in
      let kept = (check_keeps cfg w.stop now (connections w) w.thread).0 in (l, ground arith)
  Step-IsTimed (calibrated w now l) p =
      (l, timer-IsTimed now _ l (calibrate_keeps now w.thread).0 p)
  Step-IsTimed (sampled w now later statistics l m) p = (
    le_trans l m,
    timer-IsTimed later _ (le_trans l m) (sample_keeps now later w.thread statistics).0 p,
  )
  Step-IsTimed (interrupted w) p = (le_refl _, ground arith)

-- The timer of the first check of a thread.
abbrev pub first_check : Config → StartInput → ℕ
first_check cfg i = i.now + (2000 + cfg.connections / cfg.threads * 5) * 1000

module _ {H F : Type 0} ⦃fl : Float F⦄ ⦃hdr : Hdr H⦄ where
  started-IsTimed :
      (cfg : Config) (i : StartInput) (stop_at : ℕ)
      → IsTimed {H = H} {F = F} stop_at (first_check cfg i) (started_loop cfg i stop_at)
  unfolding started_loop thread_main
  started-IsTimed cfg i stop_at = ground arith

module _ {H F : Type 0} ⦃fl : Float F⦄ ⦃hdr : Hdr H⦄ ⦃report : HdrReport H F⦄
    (range : (x : F) → fl.to_u64 x < 2 ^ 64) (cfg : Config) where
  stays :
      {due : ℕ} {w v : Loop H F}
      → Step cfg w v
      → (w.stop ≡ true) × (w.stopped ≡ false → w.check_due ≡ due)
      → (v.stop ≡ true) × (v.stopped ≡ false → v.check_due ≡ due)
  unfolding interrupt thread_stop
  stays (opened w i c now a e l small) p = ground arith
  stays (handled w i c {u} {calls} e small h) p = ground arith
  stays (stopped_by_script w i c {u} {calls} e small h runs) p = ground arith
  stays (checked w now l) p =
      let quit = check_stops cfg w.stop now (connections w) w.thread in ground arith
  stays (calibrated w now l) p = p
  stays (sampled w now later statistics l m) p = p
  stays (interrupted w) p = (refl, p.1)

  -- After an interrupt, the timer of the checks is not asked again before the loop is stopped.
  Reach-stop :
      {v w : Loop H F}
      → v.stop ≡ true
      → Reach cfg v w
      → (w.stop ≡ true) × (w.stopped ≡ false → w.check_due ≡ v.check_due)
  Reach-stop e here = (e, λ q. refl)
  Reach-stop e (next r st) = stays st (Reach-stop e r)

  Reach-IsTimed :
      (i : StartInput) (stop_at : ℕ) {w : Loop H F}
      → Reach cfg (started_loop cfg i stop_at) w
      → IsTimed stop_at (first_check cfg i) w
  Reach-IsTimed i stop_at here = started-IsTimed cfg i stop_at
  Reach-IsTimed i stop_at (next r st) = (Step-IsTimed range cfg st (Reach-IsTimed i stop_at r)).1

  pub stop_cause :
      (i : StartInput) (stop_at : ℕ) {w : Loop H F}
      → Reach cfg (started_loop cfg i stop_at) w
      → w.stopped ≡ true
      → (w.stop ≡ true) ⊎ (stop_at ≤ w.clock) ⊎ (w.asked ≡ true)
  stop_cause i stop_at r e = (Reach-IsTimed i stop_at r).cause e

  -- The event loop of a thread is stopped in time: as long as it is not stopped, and its timer of
  -- the checks is late by no more than a lag, the clock has passed neither the time of the first
  -- check nor two seconds after the end of the test by more than that lag, whichever is later.
  -- Conversions to uint64_t are taken to give a 64-bit word. A response is taken to come only while
  -- one is pending, and the counts of responses to fit in 64 bits.
  pub stop_in_time :
      (i : StartInput) (stop_at lag : ℕ) {w : Loop H F}
      → Reach cfg (started_loop cfg i stop_at) w
      → w.stopped ≡ false
      → w.clock ≤ w.check_due + lag
      → (w.clock ≤ first_check cfg i + lag) ⊎ (w.clock < stop_at + 2_000_000 + lag)
  stop_in_time i stop_at lag r q l = let p = Reach-IsTimed i stop_at r in ground arith

  -- An interrupt stops the event loop of a thread: as long after it as the loop is not stopped, and
  -- its timer of the checks is late by no more than a lag, the clock has passed neither the time of
  -- the first check nor two seconds after the interrupt by more than that lag, whichever is later.
  -- Conversions to uint64_t are taken to give a 64-bit word. A response is taken to come only while
  -- one is pending, and the counts of responses to fit in 64 bits.
  pub interrupt_lem :
      (i : StartInput) (stop_at lag : ℕ) {v w : Loop H F}
      → Reach cfg (started_loop cfg i stop_at) v
      → Reach cfg (interrupt v) w
      → w.stopped ≡ false
      → w.clock ≤ w.check_due + lag
      → (w.clock ≤ first_check cfg i + lag) ⊎ (w.clock ≤ v.clock + 2_000_000 + lag)
  unfolding interrupt
  interrupt_lem i stop_at lag {v} {w} r later q l =
      let p = Reach-IsTimed i stop_at r in let same = (Reach-stop refl later).1 q in ground arith

-- ===== src/Loop/Sound.antt =====
-- A thread keeps every connection on the plan and counts every response once.
use native.Mathlib.Nat.{le_trans}
use wrk.Base.{
  ℕ, zero, suc, ◌+◌, ◌^◌, ◌≤◌, ◌<◌, ◌≡◌, refl, Bool, true, false, some, List, [], arith, ◌/◌,
  if◌then◌else◌, All, map, sum, length, get_elem?, length-set, All-get_elem?, All-set, All-weaken,
  sum-set,
}
use wrk.Float.{Float}
use wrk.Hdr.{Hdr, HdrReport}
use wrk.Conn.{Config, Connection, Thread, Call, Out}
use wrk.Pace.{due}
use wrk.Socket.{delayed_initial_connect}
use wrk.Worker.{StartInput, new_connections, thread_main}
use wrk.Life.{State, at, Handler, own}
use wrk.Life.Moves.{Step-Moved}
use wrk.Loop.Timers.{KeepsCounts, check_keeps, calibrate_keeps, sample_keeps}
use wrk.Loop.Slots.{IsSoundSlot, later_slot, handled_slot, opened_slot}
use wrk.Loop.Quiet.{initial-IsQuiet}
use wrk.Loop.Count.{Tally, none_counted, counted, over, Handler-Tally}
use wrk.Loop.{
  Slot, Loop, interrupt, connections, after, state, unopened, started_loop, Step, opened, handled,
  stopped_by_script, thread_stop, checked, calibrated, sampled, interrupted, Reach, here, next,
}

-- The responses that the connections have counted.
abbrev pub completed : {F : Type 0} → List (Slot F) → ℕ
completed {F} slots = sum (map (λ (s : Slot F). s.conn.complete) slots)

module _ {H F : Type 0} ⦃fl : Float F⦄ where
  -- The thread's counts; they agree with those of its connections as long as the test goes on.
  pub record IsSound (cfg : Config) (rate : F) (w : Loop H F) : Type 0 where
    pub each : All (IsSoundSlot cfg rate w.clock) w.slots
    pub members : length w.slots ≡ w.thread.connections
    pub counted : completed w.slots ≤ w.thread.complete
    pub exact : w.clock < w.thread.stop_at → completed w.slots ≡ w.thread.complete
    pub since_sample : w.thread.requests ≤ w.thread.complete

module _ {H F : Type 0} ⦃fl : Float F⦄ where
  stop-IsSound :
      {cfg : Config} {rate : F} {w : Loop H F}
      → IsSound cfg rate w
      → IsSound cfg rate (thread_stop w)
  unfolding thread_stop
  stop-IsSound p = record {
    each = p.each;
    members = p.members;
    counted = p.counted;
    exact = p.exact;
    since_sample = p.since_sample;
  }

  -- The thread's count goes on at least as that of the connection, and in step with it while the
  -- test goes on.
  in_step :
      {now : ℕ} {t : Thread H F} {c : Connection F} {out : Out H F}
      → Tally now t c out
      → t.requests ≤ t.complete
      → (out.thread.stop_at ≡ t.stop_at)
        × (out.thread.connections ≡ t.connections)
        × (out.thread.requests ≤ out.thread.complete)
        × (t.complete + out.conn.complete ≤ out.thread.complete + c.complete)
        × (now < t.stop_at → t.complete + out.conn.complete ≡ out.thread.complete + c.complete)
  in_step (none_counted q) l = ground arith
  in_step (counted q e n) l = ground arith
  in_step (over q e n) l = ground arith

  after-IsSound :
      {cfg : Config} {rate : F} {w : Loop H F} (i : ℕ) (s : Slot F) (u : State H F)
      (calls : List Call)
      → get_elem? w.slots i ≡ some s
      → w.clock ≤ u.clock
      → Tally u.clock w.thread s.conn (record { thread = u.thread; conn = u.conn; calls = calls })
      → IsSoundSlot cfg rate u.clock (record { started = true; conn = u.conn })
      → IsSound cfg rate w
      → IsSound cfg rate (after w i u calls)
  after-IsSound {cfg} {rate} {w} i s u calls e l tally slot p =
      let new : Slot F = record { started = true; conn = u.conn } in
      let total = sum-set (λ (s : Slot F). s.conn.complete) w.slots i s new e in
      let all =
        All-set (IsSoundSlot cfg rate u.clock) w.slots i new
          (All-weaken (IsSoundSlot cfg rate w.clock) (IsSoundSlot cfg rate u.clock)
            (λ s p. later_slot cfg rate w.clock u.clock s l p) w.slots p.each)
          slot in
      let (limit, number, since, most, all_counted) = in_step tally p.since_sample in
      record {
        each = all;
        members = omega (arith, length-set w.slots i new, number, p.members);
        counted = omega (arith, total, most, p.counted);
        exact = λ early. omega (arith, total, all_counted (omega arith), p.exact (omega arith));
        since_sample = since;
      }

  timed-IsSound :
      {cfg : Config} {rate : F} {w : Loop H F} (later : ℕ) (t : Thread H F) (stopped : Bool)
      (check_due : ℕ)
      → w.clock ≤ later
      → KeepsCounts t w.thread
      → IsSound cfg rate w
      → IsSound cfg rate
          (record w { clock = later; thread = t; stopped = stopped; check_due = check_due })
  timed-IsSound {cfg} {rate} {w} later t stopped check_due l same p = record {
    each =
        All-weaken (IsSoundSlot cfg rate w.clock) (IsSoundSlot cfg rate later)
          (λ s q. later_slot cfg rate w.clock later s l q) w.slots p.each;
    members = omega (arith, p.members);
    counted = omega (arith, p.counted);
    exact = λ early. omega (arith, p.exact (omega arith));
    since_sample = omega (arith, p.since_sample);
  }

module _ {H F : Type 0} ⦃fl : Float F⦄ ⦃hdr : Hdr H⦄ ⦃report : HdrReport H F⦄
    (range : (x : F) → fl.to_u64 x < 2 ^ 64) (cfg : Config) (rate : F)
    (soon : (t : ℕ) → t < 2 ^ 53 → due t 0 rate ≤ t) where
  handled-IsSound :
      {w : Loop H F}
      → 0 < cfg.pipeline
      → (i : ℕ) (c : Connection F) {u : State H F} {calls : List Call}
      → get_elem? w.slots i ≡ some (record { started = true; conn = c })
      → w.thread.complete + 1 < 2 ^ 64
      → Handler cfg (state w c) u calls
      → IsSound cfg rate w
      → IsSound cfg rate (after w i u calls)
  handled-IsSound {w} pos i c {u} {calls} e small h p =
      let (l, moved) = Step-Moved range cfg (own h) in
      after-IsSound i (record { started = true; conn = c }) u calls e l (Handler-Tally cfg h small)
        (handled_slot pos l moved (All-get_elem? (IsSoundSlot cfg rate w.clock) w.slots i p.each e))
        p

  Step-IsSound :
      {w v : Loop H F} → 0 < cfg.pipeline → Step cfg w v → IsSound cfg rate w → IsSound cfg rate v
  unfolding interrupt
  Step-IsSound pos (opened w i c now a e l small) p =
      after-IsSound i (record { started = false; conn = c })
        (at now (delayed_initial_connect now a w.thread c).1)
        (delayed_initial_connect now a w.thread c).1.calls e l
        (none_counted (initial-IsQuiet now a w.thread c))
        (opened_slot now a w.thread (soon now small)
          (All-get_elem? (IsSoundSlot cfg rate w.clock) w.slots i p.each e))
        p
  Step-IsSound pos (handled w i c {u} {calls} e small h) p = handled-IsSound pos i c e small h p
  Step-IsSound pos (stopped_by_script w i c {u} {calls} e small h runs) p =
      stop-IsSound (handled-IsSound pos i c e small h p)
  Step-IsSound pos (checked w now l) p =
      timed-IsSound now _ _ _ l (check_keeps cfg w.stop now (connections w) w.thread) p
  Step-IsSound pos (calibrated w now l) p =
      timed-IsSound now _ _ _ l (calibrate_keeps now w.thread) p
  Step-IsSound pos (sampled w now later statistics l m) p =
      timed-IsSound later _ _ _ (le_trans l m) (sample_keeps now later w.thread statistics) p
  Step-IsSound pos (interrupted w) p = record {
    each = p.each;
    members = p.members;
    counted = p.counted;
    exact = p.exact;
    since_sample = p.since_sample;
  }

module _ {F : Type 0} ⦃fl : Float F⦄ where
  new_slots :
      (cfg : Config) (n i clock : ℕ) (request : List ℕ) (rate : F)
      → due 0 0 rate ≤ clock
      → let slots = map unopened (new_connections n i request rate).0 in
        All (IsSoundSlot cfg rate clock) slots × (length slots ≡ n) × (completed slots ≡ 0)
  unfolding new_connections
  new_slots cfg zero i clock request rate soon = (tt, refl, refl)
  new_slots cfg (suc n) i clock request rate soon =
      let (all, long, none_yet) = new_slots cfg n (i + 1) clock request rate soon in
      (
        (
          record {
            on_plan = ground arith;
            on_rate = record {
              count = 0;
              planned = soon;
              limit = omega arith;
              in_batch = omega arith;
            };
            fresh = λ e. (refl, refl, refl);
            same_rate = refl;
          },
          all,
        ),
        omega (arith, long),
        omega (arith, none_yet),
      )

-- The rate of each connection, in requests per microsecond.
abbrev pub rate_of : {F : Type 0} → Float F → Config → F
rate_of fl cfg =
    let of_thread = fl.fdiv (fl.of_u64 cfg.rate) (fl.of_u64 cfg.threads) in
    fl.fdiv (fl.fdiv of_thread (fl.of_u64 1_000_000)) (fl.of_u64 (cfg.connections / cfg.threads))

module _ {H F : Type 0} ⦃fl : Float F⦄ ⦃hdr : Hdr H⦄ where
  started-IsSound :
      (cfg : Config) (i : StartInput) (stop_at : ℕ)
      → due 0 0 (rate_of fl cfg) ≤ 0
      → IsSound {H = H} cfg (rate_of fl cfg) (started_loop cfg i stop_at)
  unfolding started_loop thread_main
  started-IsSound cfg i stop_at soon =
      let request = if cfg.dynamic then [] else i.script_text in
      let (all, long, none_yet) =
        new_slots cfg (cfg.connections / cfg.threads) 0 i.now request (rate_of fl cfg)
          (omega (arith, soon)) in
      record {
        each = all;
        members = long;
        counted = omega (arith, none_yet);
        exact = λ early. none_yet;
        since_sample = omega arith;
      }

module _ {H F : Type 0} ⦃fl : Float F⦄ ⦃hdr : Hdr H⦄ ⦃report : HdrReport H F⦄
    (range : (x : F) → fl.to_u64 x < 2 ^ 64) (cfg : Config) (i : StartInput) (stop_at : ℕ)
    (soon : (t : ℕ) → t < 2 ^ 53 → due t 0 (rate_of fl cfg) ≤ t) where
  -- However the event loop of a thread, from its start on, runs the handlers of its connections and
  -- its timers, with at least one request in a batch: every connection is on the plan and keeps to
  -- the rate; the thread keeps its number of connections; it counts at least the responses that its
  -- connections have counted, and exactly those while the test goes on; and it counts no more since
  -- the last sample than in all. Conversions to uint64_t are taken to give a 64-bit word, and at
  -- the connections' rate 0 requests after a time below 2^53 to be due by that time. A response is
  -- taken to come only while one is pending, and the counts of responses to fit in 64 bits.
  pub Reach-IsSound :
      {w : Loop H F}
      → 0 < cfg.pipeline
      → Reach cfg (started_loop cfg i stop_at) w
      → IsSound cfg (rate_of fl cfg) w
  Reach-IsSound pos here = started-IsSound cfg i stop_at (soon 0 (omega arith))
  Reach-IsSound pos (next r st) =
      Step-IsSound range cfg (rate_of fl cfg) soon pos st (Reach-IsSound pos r)

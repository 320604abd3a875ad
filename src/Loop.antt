-- ===== src/Loop.antt =====
-- The event loop of one thread of src/wrk.c: the handlers of all its connections and its timers, in
-- any order, from `thread_main` on.
pub mod Quiet
pub mod Count
pub mod Timers
pub mod Slots
pub mod Sound
pub mod Stop
pub mod Totals
pub mod Project
pub mod Tests
use wrk.Base.{
  ℕ, ◌+◌, ◌*◌, ◌^◌, ◌≤◌, ◌<◌, ◌≡◌, Bool, true, false, ◌||◌, some, List, [], ◌∷◌, map, get_elem?,
  set,
}
use wrk.Float.{Float}
use wrk.Hdr.{Hdr, HdrReport}
use wrk.Stats.{Stats}
use wrk.Conn.{Config, Connection, Thread, Call, call_script, stop_loop}
use wrk.Socket.{Attempt, delayed_initial_connect}
use wrk.Timer.{check_timeouts, calibrate, sample_rate, timeout_interval_ms}
use wrk.Worker.{StartInput, thread_main}
use wrk.Main.{new_thread}
use wrk.Life.{State, at, Handler}

abbrev is_stop : Call → Bool
is_stop stop_loop = true
is_stop _ = false

-- Whether one of the calls is `aeStop`.
abbrev pub stops : List Call → Bool
stops [] = false
stops (call ∷ calls) = is_stop call || stops calls

-- A connection, and whether its timer of `delayed_initial_connect` has fired.
pub record Slot (F : Type 0) : Type 0 where
  pub started : Bool
  pub conn : Connection F

abbrev pub unopened : {F : Type 0} → Connection F → Slot F
unopened c = record { started = false; conn = c }

-- `stop` is that of the program, `stopped` that of the event loop, and `asked` whether a script has
-- called `wrk.thread:stop()`; `check_due` is when the timer of
-- `check_timeouts` was last asked to fire.
pub record Loop (H F : Type 0) : Type 0 where
  pub clock : ℕ
  pub thread : Thread H F
  pub slots : List (Slot F)
  pub stop : Bool
  pub stopped : Bool
  pub asked : Bool
  pub check_due : ℕ

-- `handler`, the handler of SIGINT.
unfoldable pub interrupt : {H F : Type 0} → Loop H F → Loop H F
interrupt w = record w { stop = true }

-- `script_thread_stop` of src/script.c, which is `aeStop`, as the event loop sees it.
unfoldable pub thread_stop : {H F : Type 0} → Loop H F → Loop H F
thread_stop w = record w { stopped = true; asked = true }

abbrev is_script_call : Call → Bool
is_script_call (call_script call) = true
is_script_call _ = false

-- Whether the script may have run in a handler with these calls: its `request` for a batch, or its
-- `response`.
abbrev pub runs_script : Config → List Call → Bool
runs_script cfg [] = cfg.dynamic
runs_script cfg (call ∷ calls) = is_script_call call || runs_script cfg calls

abbrev pub state : {H F : Type 0} → Loop H F → Connection F → State H F
state w c = record { clock = w.clock; thread = w.thread; conn = c }

abbrev pub connections : {H F : Type 0} → Loop H F → List (Connection F)
connections {H} {F} w = map (λ (s : Slot F). s.conn) w.slots

-- The loop after a handler of connection `i`.
abbrev pub after : {H F : Type 0} → Loop H F → ℕ → State H F → List Call → Loop H F
after w i u calls = record w {
  clock = u.clock;
  thread = u.thread;
  slots = set w.slots i (record { started = true; conn = u.conn });
  stopped = w.stopped || stops calls;
}

module _ {H F : Type 0} ⦃fl : Float F⦄ ⦃hdr : Hdr H⦄ where
  -- The loop as `main` and `thread_main` leave it, the configuration being that of the first thread.
  unfoldable pub started_loop : Config → StartInput → ℕ → Loop H F
  started_loop cfg i stop_at =
      let (t, cs, calls) = thread_main cfg i (new_thread cfg stop_at) in
      record {
        clock = i.now;
        thread = t;
        slots = map unopened cs;
        stop = false;
        stopped = false;
        asked = false;
        check_due = i.now + (timeout_interval_ms + t.connections * 5) * 1000;
      }

module _ {H F : Type 0} ⦃fl : Float F⦄ ⦃hdr : Hdr H⦄ ⦃report : HdrReport H F⦄ (cfg : Config) where
  -- A thread counts fewer than 2^64 responses. Once stopped, the loop still runs what is left of its
  -- turn, so that a step does not depend on it. A handler in which the script runs ends with or
  -- without the loop stopped by the script.
  pub data Step : Loop H F → Loop H F → Type 0 where
    opened :
        (w : Loop H F) (i : ℕ) (c : Connection F) (now : ℕ) (a : Attempt)
        → get_elem? w.slots i ≡ some (record { started = false; conn = c })
        → w.clock ≤ now
        → now < 2 ^ 53
        → Step w (
            after w i
              (at now (delayed_initial_connect now a w.thread c).1)
              (delayed_initial_connect now a w.thread c).1.calls)
    handled :
        (w : Loop H F) (i : ℕ) (c : Connection F) {u : State H F} {calls : List Call}
        → get_elem? w.slots i ≡ some (record { started = true; conn = c })
        → w.thread.complete + 1 < 2 ^ 64
        → Handler cfg (state w c) u calls
        → Step w (after w i u calls)
    stopped_by_script :
        (w : Loop H F) (i : ℕ) (c : Connection F) {u : State H F} {calls : List Call}
        → get_elem? w.slots i ≡ some (record { started = true; conn = c })
        → w.thread.complete + 1 < 2 ^ 64
        → Handler cfg (state w c) u calls
        → runs_script cfg calls ≡ true
        → Step w (thread_stop (after w i u calls))
    checked :
        (w : Loop H F) (now : ℕ)
        → w.clock ≤ now
        → Step w (record w {
          clock = now;
          thread = (check_timeouts cfg w.stop now (connections w) w.thread).1;
          stopped = w.stopped || stops (check_timeouts cfg w.stop now (connections w) w.thread).2;
          check_due = now + timeout_interval_ms * 1000;
        })
    calibrated :
        (w : Loop H F) (now : ℕ)
        → w.clock ≤ now
        → Step w (record w { clock = now; thread = (calibrate now w.thread).1 })
    sampled :
        (w : Loop H F) (now later : ℕ) (statistics : Stats H)
        → w.clock ≤ now
        → now ≤ later
        → Step w
            (record w { clock = later; thread = (sample_rate now later w.thread statistics).1 })
    interrupted : (w : Loop H F) → Step w (interrupt w)

  pub data Reach (w : Loop H F) : Loop H F → Type 0 where
    here : Reach w w
    next : {v u : Loop H F} → Reach w v → Step v u → Reach w u

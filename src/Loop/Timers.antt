-- ===== src/Loop/Timers.antt =====
-- What the timers of a thread leave alone.
use native.Mathlib.Nat.{le_refl}
use wrk.Base.{ℕ, ◌≤◌, ◌≡◌, refl, Bool, List, arith, ◌||◌, leb}
use wrk.Float.{Float}
use wrk.Hdr.{Hdr, HdrReport}
use wrk.Stats.{Stats}
use wrk.Conn.{Config, Connection, Thread}
use wrk.Timer.{check_timeouts, calibrate, sample_rate}
use wrk.Loop.{stops}

module _ {H F : Type 0} where
  -- A timer counts no response.
  abbrev pub KeepsCounts : Thread H F → Thread H F → Type 0
  KeepsCounts t u =
      (t.stop_at ≡ u.stop_at)
      × (t.connections ≡ u.connections)
      × (t.complete ≡ u.complete)
      × (t.requests ≤ u.requests)

  pub check_keeps :
      (cfg : Config) (stop : Bool) (now : ℕ) (cs : List (Connection F)) (t : Thread H F)
      → KeepsCounts (check_timeouts cfg stop now cs t).1 t
  unfolding check_timeouts
  check_keeps cfg stop now cs t = (refl, refl, refl, le_refl _)

  pub check_stops :
      (cfg : Config) (stop : Bool) (now : ℕ) (cs : List (Connection F)) (t : Thread H F)
      → stops (check_timeouts cfg stop now cs t).2 ≡ (stop || leb t.stop_at now)
  unfolding check_timeouts
  check_stops cfg stop now cs t = ground arith

module _ {H F : Type 0} ⦃fl : Float F⦄ ⦃hdr : Hdr H⦄ ⦃report : HdrReport H F⦄ where
  pub calibrate_keeps : (now : ℕ) (t : Thread H F) → KeepsCounts (calibrate now t).1 t
  unfolding calibrate
  calibrate_keeps now t = ground arith

module _ {H F : Type 0} ⦃fl : Float F⦄ ⦃hdr : Hdr H⦄ where
  pub sample_keeps :
      (now later : ℕ) (t : Thread H F) (statistics : Stats H)
      → KeepsCounts (sample_rate now later t statistics).1 t
  unfolding sample_rate
  sample_keeps now later t statistics = ground arith

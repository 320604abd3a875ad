-- ===== src/Loop/Totals.antt =====
-- What the report counts of the runs of all threads.
use wrk.Base.{ℕ, ◌+◌, ◌^◌, ◌≤◌, ◌<◌, ◌≡◌, refl, List, [], ◌∷◌, arith, All}
use wrk.Float.{Float}
use wrk.Hdr.{Hdr, HdrReport}
use wrk.Conn.{Config, Thread}
use wrk.Pace.{due}
use wrk.Worker.{StartInput}
use wrk.Main.{totals}
use wrk.Main.Sums.{total, totals_lem}
use wrk.Loop.{Loop, started_loop, Reach}
use wrk.Loop.Sound.{completed, rate_of, IsSound, Reach-IsSound}

module _ {H F : Type 0} where
  abbrev pub threads : List (Loop H F) → List (Thread H F)
  threads [] = []
  threads (w ∷ ws) = w.thread ∷ threads ws

  -- The responses that the connections of all threads have counted.
  abbrev pub all_completed : List (Loop H F) → ℕ
  all_completed [] = 0
  all_completed (w ∷ ws) = completed w.slots + all_completed ws

module _ {H F : Type 0} ⦃fl : Float F⦄ where
  threads_count :
      (cfg : Config) (rate : F) (ws : List (Loop H F))
      → All (IsSound cfg rate) ws
      → all_completed ws ≤ total (λ (t : Thread H F). t.complete) (threads ws)
  threads_count cfg rate [] h = omega arith
  threads_count cfg rate (w ∷ ws) (p, ps) = omega (arith, p.counted, threads_count cfg rate ws ps)

  early_count :
      (cfg : Config) (rate : F) (ws : List (Loop H F))
      → All (IsSound cfg rate) ws
      → All (λ (w : Loop H F). w.clock < w.thread.stop_at) ws
      → all_completed ws ≡ total (λ (t : Thread H F). t.complete) (threads ws)
  early_count cfg rate [] h e = refl
  early_count cfg rate (w ∷ ws) (p, ps) (e, es) =
      omega (arith, p.exact e, early_count cfg rate ws ps es)

module _ {H F : Type 0} ⦃fl : Float F⦄ ⦃hdr : Hdr H⦄ ⦃report : HdrReport H F⦄
    (range : (x : F) → fl.to_u64 x < 2 ^ 64) (cfg : Config) (stop_at : ℕ)
    (soon : (t : ℕ) → t < 2 ^ 53 → due t 0 (rate_of fl cfg) ≤ t) where
  -- Threads that have run from their start on, each with what it read there.
  abbrev pub HaveRun : List StartInput → List (Loop H F) → Type 0
  HaveRun [] [] = Unit
  HaveRun (i ∷ is) (w ∷ ws) = Reach cfg (started_loop cfg i stop_at) w × HaveRun is ws
  HaveRun [] (w ∷ ws) = ⊥
  HaveRun (i ∷ is) [] = ⊥

  HaveRun-IsSound :
      0 < cfg.pipeline
      → (is : List StartInput) (ws : List (Loop H F)) → HaveRun is ws
      → All (IsSound cfg (rate_of fl cfg)) ws
  HaveRun-IsSound pos [] [] h = tt
  HaveRun-IsSound pos (i ∷ is) (w ∷ ws) (r, rs) =
      (Reach-IsSound range cfg i stop_at soon pos r, HaveRun-IsSound pos is ws rs)
  HaveRun-IsSound pos [] (w ∷ ws) h = absurd h
  HaveRun-IsSound pos (i ∷ is) [] h = absurd h

  -- However the threads of a test have run from their start on, with at least one request in a
  -- batch: the number of requests in the report is at least that of the responses which all
  -- connections have counted, if the threads' counts stay together below 2^64; and it is exactly
  -- that number if no thread has reached the end of the test. Conversions to uint64_t are taken to
  -- give a 64-bit word, and at the connections' rate 0 requests after a time below 2^53 to be due
  -- by that time. A response is taken to come only while one is pending, and the counts of
  -- responses to fit in 64 bits.
  pub reported_lem :
      (is : List StartInput) (ws : List (Loop H F))
      → 0 < cfg.pipeline
      → HaveRun is ws
      → total (λ (t : Thread H F). t.complete) (threads ws) < 2 ^ 64
      → let reported = (totals (threads ws)).complete in
        (all_completed ws ≤ reported)
        × (All (λ (w : Loop H F). w.clock < w.thread.stop_at) ws → reported ≡ all_completed ws)
  reported_lem is ws pos ran small =
      let sound = HaveRun-IsSound pos is ws ran in
      let sums = totals_lem (threads ws) in
      (
        omega (arith, sums.complete, threads_count cfg (rate_of fl cfg) ws sound),
        λ early. omega (arith, sums.complete, early_count cfg (rate_of fl cfg) ws sound early),
      )

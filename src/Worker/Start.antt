-- ===== src/Worker/Start.antt =====
-- What a thread starts with.
use wrk.Base.{
  ℕ, zero, suc, ◌+◌, ◌*◌, ◌^◌, ◌<◌, ◌≤◌, ◌≡◌, inl, inr, refl, ap, List, [], ◌∷◌, ◌++◌, arith, All,
  length, Bool-cases,
}
use wrk.Float.{Float}
use wrk.Hdr.{Hdr}
use wrk.Conn.{
  Config, Connection, Thread, Call, create_time_event, initial_connect, calibrate_proc,
  timeout_proc,
}
use wrk.Pace.Plan.{IsPaced}
use wrk.Life.Plan.{OnPlan}
use wrk.Writer.Writes.{IsWhole}
use wrk.Worker.{StartInput, connection_rate, new_connections, thread_main}

-- The connection with a number, ready for its first request.
module _ {F : Type 0} ⦃fl : Float F⦄ where
  pub record IsReady (i : ℕ) (throughput : F) (c : Connection F) : Type 0 where
    pub numbered : c.id ≡ i
    pub whole : IsWhole c
    pub paced : IsPaced c
    pub on_plan : (clock : ℕ) → OnPlan clock c
    pub rate :
        (c.throughput ≡ throughput) × (c.catch_up_throughput ≡ fl.fmul throughput (fl.of_u64 2))
    pub idle : (c.written ≡ 0) × (c.pending ≡ 0) × (c.complete ≡ 0)

  -- The connections are numbered from `i` on.
  abbrev pub AreReady : ℕ → F → List (Connection F) → Type 0
  AreReady i throughput [] = Unit
  AreReady i throughput (c ∷ cs) = IsReady i throughput c × AreReady (i + 1) throughput cs

-- The calls that start connection `i`, and the connections behind it, 5 milliseconds apart.
abbrev pub staggered : ℕ → ℕ → List Call
staggered zero i = []
staggered (suc n) i = create_time_event (i * 5) (initial_connect i) ∷ staggered n (i + 1)

-- A timer that is due before a delay in milliseconds.
abbrev pub IsBefore : ℕ → Call → Type 0
IsBefore limit (create_time_event delay proc) = delay < limit
IsBefore limit _ = ⊥

staggered-IsBefore : (n i limit : ℕ) → (i + n) * 5 ≤ limit → All (IsBefore limit) (staggered n i)
staggered-IsBefore zero i limit h = tt
staggered-IsBefore (suc n) i limit h =
    (omega arith, staggered-IsBefore n (i + 1) limit (omega arith))

module _ {F : Type 0} ⦃fl : Float F⦄ where
  new_connections_lem :
      (n i : ℕ) (request : List ℕ) (throughput : F)
      → length request < 2 ^ 64
      → let (cs, calls) = new_connections n i request throughput in
        (length cs ≡ n) × AreReady i throughput cs × (calls ≡ staggered n i)
  unfolding new_connections
  new_connections_lem zero i request throughput short = (refl, tt, refl)
  new_connections_lem (suc n) i request throughput short =
      let (l, r, e) = new_connections_lem n (i + 1) request throughput short in
      (
        ap suc l,
        (
          record {
            numbered = refl;
            whole = (refl, short);
            paced = λ h. absurd (cc);
            on_plan = λ clock. ground arith;
            rate = (refl, refl);
            idle = (refl, refl, refl);
          },
          r,
        ),
        rw e refl,
      )

module _ {H F : Type 0} ⦃fl : Float F⦄ ⦃hdr : Hdr H⦄ where
  -- A thread starts with as many connections as it was given, numbered from 0. Each has the thread's rate
  -- in requests per microsecond over the number of connections, and double that to catch up; it has
  -- nothing written, pending or complete, its request is whole, and it is on the plan at any time. It opens
  -- the connections by timers 5 milliseconds apart, in order, all of them due before the calibration;
  -- the calibration and the timeouts have one timer each, and nothing else is called.
  pub thread_main_lem :
      (cfg : Config) (i : StartInput) (t : Thread H F)
      → length i.script_text < 2 ^ 64
      → let (t', cs, calls) = thread_main cfg i t in
        let n = t.connections in
        let rate = fl.fdiv (fl.fdiv t.throughput (fl.of_u64 1_000_000)) (fl.of_u64 n) in
        (length cs ≡ n)
        × AreReady 0 rate cs
        × (calls
            ≡ staggered n 0
              ++ create_time_event (10000 + n * 5) calibrate_proc
                ∷ create_time_event (2000 + n * 5) timeout_proc
                ∷ [])
        × All (IsBefore (10000 + n * 5)) (staggered n 0)
  unfolding thread_main
  thread_main_lem cfg i t short = elim (Bool-cases cfg.dynamic) [
    | inl y ↦
        let (l, r, e) = new_connections_lem t.connections 0 [] (connection_rate t) (omega arith) in
        (rw y l, rw y r, rw (y, e) refl, staggered-IsBefore t.connections 0 _ (omega arith))
    | inr n ↦
        let (l, r, e) =
          new_connections_lem t.connections 0 i.script_text (connection_rate t) short in
        (rw n l, rw n r, rw (n, e) refl, staggered-IsBefore t.connections 0 _ (omega arith))
  ]

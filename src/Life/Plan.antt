-- ===== src/Life/Plan.antt =====
-- The latency that is recorded is measured from the plan.
use native.Mathlib.Nat.{le_refl, le_trans}
use wrk.Base.{ℕ, ◌+◌, ◌-◌, ◌^◌, ◌≤◌, ◌<◌, ◌≡◌, ◌↔◌, true, arith, sub64}
use wrk.Float.{Float}
use wrk.Hdr.{Hdr}
use wrk.Conn.{Config, Connection}
use wrk.Pace.{due}
use wrk.Writer.{WriteInput, begin_batch}
use wrk.Response.{expected_latency, settle}
use wrk.Life.Times.{SameTimes}
use wrk.Life.Moves.{Moved, stayed, began, settled, Step-Moved}
use wrk.Life.{State, Reach, here, next}

module _ {F : Type 0} ⦃fl : Float F⦄ where
  -- While responses are pending, the batch began no earlier than it was due, and not in the future;
  -- the flag and the count of pending responses agree.
  pub record OnPlan (clock : ℕ) (c : Connection F) : Type 0 where
    pub not_early :
        c.has_pending ≡ true
        → due c.thread_start c.complete_at_last_batch_start c.throughput ≤ c.actual_latency_start
    pub not_ahead : c.has_pending ≡ true → c.actual_latency_start ≤ clock
    pub flagged : (c.has_pending ≡ true) ↔ (0 < c.pending)

  keep_OnPlan :
      {clock later : ℕ} {c d : Connection F}
      → clock ≤ later
      → SameTimes d c
      → OnPlan clock c
      → OnPlan later d
  keep_OnPlan l s p = ground arith

module _ {F : Type 0} ⦃fl : Float F⦄ where
  begin_batch-OnPlan :
      (cfg : Config) (i : WriteInput) (clock : ℕ) (c : Connection F)
      → OnPlan clock c
      → clock ≤ i.start_time
      → i.now ≤ i.start_time
      → due c.thread_start c.complete c.throughput ≤ i.now
      → 0 < cfg.pipeline
      → OnPlan i.start_time (begin_batch cfg i c)
  unfolding begin_batch
  begin_batch-OnPlan cfg i clock c p l m n pos = ground arith

  settle-OnPlan :
      (clock later : ℕ) (c : Connection F)
      → OnPlan clock c
      → clock ≤ later
      → 0 < c.pending
      → c.pending < 2 ^ 64
      → OnPlan later (settle c).0
  unfolding settle
  settle-OnPlan clock later c p l pos small = ground arith

  pub Moved-OnPlan :
      {cfg : Config} {clock later : ℕ} {c d : Connection F}
      → 0 < cfg.pipeline
      → clock ≤ later
      → Moved cfg clock later c d
      → OnPlan clock c
      → OnPlan later d
  Moved-OnPlan pos l (stayed same) p = keep_OnPlan l same p
  Moved-OnPlan {cfg} {clock} {later} {c} pos l (began i m n k planned same) p =
      keep_OnPlan k same (begin_batch-OnPlan cfg i clock c p (omega arith) n planned pos)
  Moved-OnPlan {cfg} {clock} {later} {c} pos l (settled busy few count same) p =
      keep_OnPlan (le_refl _) same (settle-OnPlan clock later c p l busy few)

module _ {H F : Type 0} ⦃fl : Float F⦄ ⦃hdr : Hdr H⦄ (range : (x : F) → fl.to_u64 x < 2 ^ 64)
    (cfg : Config) where
  -- From a connection that is on the plan, with at least one request in a batch, and however the
  -- event loop runs the handlers of the connection: the clock does not go back, no batch of
  -- requests begins before it is due by the plan or in the future, and a connection is marked as
  -- waiting exactly while it has responses pending. Conversions to uint64_t are taken to give a
  -- 64-bit word.
  Reach-OnPlan :
      {s u : State H F}
      → 0 < cfg.pipeline
      → OnPlan s.clock s.conn
      → Reach cfg s u
      → (s.clock ≤ u.clock) × OnPlan u.clock u.conn
  Reach-OnPlan pos p here = (le_refl _, p)
  Reach-OnPlan pos p (next r st) =
      let (l, q) = Reach-OnPlan pos p r in
      let (l', moved) = Step-Moved range cfg st in (le_trans l l', Moved-OnPlan pos l' moved q)

  -- From a connection that is on the plan, with at least one request in a batch, and however the
  -- event loop runs its handlers: at any later time below 2^63 the latency to be recorded for a
  -- pending response is never negative, so that the branch of `response_complete` which reports a
  -- negative one is not taken; and it is the uncorrected latency, that from the actual start of the
  -- batch, plus the whole delay of that start behind the plan. Conversions to uint64_t are taken to
  -- give a 64-bit word. A response is taken to come only while one is pending, and the counts of
  -- responses to fit in 64 bits.
  pub corrected_latency :
      {s u : State H F} (now : ℕ)
      → 0 < cfg.pipeline
      → OnPlan s.clock s.conn
      → Reach cfg s u
      → u.clock ≤ now
      → now < 2 ^ 63
      → 0 < u.conn.pending
      → (expected_latency now u.conn < 2 ^ 63)
        × (sub64 now u.conn.actual_latency_start ≤ expected_latency now u.conn)
        × (expected_latency now u.conn
            ≡ sub64 now u.conn.actual_latency_start
              + (u.conn.actual_latency_start
                  - due u.conn.thread_start u.conn.complete_at_last_batch_start u.conn.throughput))
  corrected_latency {u = u} now pos p r l small busy =
      let (l', q) = Reach-OnPlan pos p r in
      let waiting = q.flagged.1 busy in
      let early = q.not_early waiting in
      let ahead = q.not_ahead waiting in (omega arith, omega arith, omega arith)

-- ===== src/Loop/Slots.antt =====
-- Every connection of a thread keeps to the plan and to the rate.
use wrk.Base.{ℕ, ◌≤◌, ◌<◌, ◌≡◌, refl, true, false, ◌∙◌, arith}
use wrk.Float.{Float}
use wrk.Conn.{Config, Connection, Thread}
use wrk.Pace.{due}
use wrk.Writer.{begin_batch}
use wrk.Response.{settle}
use wrk.Socket.{Attempt, connect_socket, delayed_initial_connect}
use wrk.Life.Moves.{Moved, stayed, began, settled}
use wrk.Life.Plan.{OnPlan, Moved-OnPlan}
use wrk.Life.Rate.{OnRate, Moved-OnRate}
use wrk.Loop.{Slot}

module _ {F : Type 0} ⦃fl : Float F⦄ where
  -- A connection of a thread; nothing has happened to it until its timer has fired.
  pub record IsSoundSlot (cfg : Config) (rate : F) (clock : ℕ) (s : Slot F) : Type 0 where
    pub on_plan : OnPlan clock s.conn
    pub on_rate : OnRate cfg clock s.conn
    pub fresh :
        s.started ≡ false
        → (s.conn.has_pending ≡ false) × (s.conn.pending ≡ 0) × (s.conn.complete ≡ 0)
    pub same_rate : s.conn.throughput ≡ rate

  pub later_slot :
      (cfg : Config) (rate : F) (clock later : ℕ) (s : Slot F)
      → clock ≤ later
      → IsSoundSlot cfg rate clock s
      → IsSoundSlot cfg rate later s
  later_slot cfg rate clock later s l p = record {
    on_plan = ground arith;
    on_rate = record {
      count = p.on_rate.count;
      planned = ground arith;
      limit = p.on_rate.limit;
      in_batch = p.on_rate.in_batch;
    };
    fresh = p.fresh;
    same_rate = p.same_rate;
  }

module _ {F : Type 0} ⦃fl : Float F⦄ where
  throughput-Moved :
      {cfg : Config} {clock later : ℕ} {c d : Connection F}
      → Moved cfg clock later c d
      → d.throughput ≡ c.throughput
  unfolding begin_batch settle
  throughput-Moved (stayed same) = ground arith
  throughput-Moved (began i l m n planned same) = ground arith
  throughput-Moved (settled busy few count same) = ground arith

  pub handled_slot :
      {cfg : Config} {rate : F} {clock later : ℕ} {c d : Connection F}
      → 0 < cfg.pipeline
      → clock ≤ later
      → Moved cfg clock later c d
      → IsSoundSlot cfg rate clock (record { started = true; conn = c })
      → IsSoundSlot cfg rate later (record { started = true; conn = d })
  handled_slot pos l moved p = record {
    on_plan = Moved-OnPlan pos l moved p.on_plan;
    on_rate = Moved-OnRate l moved p.on_rate;
    fresh = λ e. absurd (ground arith);
    same_rate = throughput-Moved moved ∙ p.same_rate;
  }

module _ {H F : Type 0} ⦃fl : Float F⦄ where
  initial_connect_lem :
      (now : ℕ) (a : Attempt) (t : Thread H F) (c : Connection F)
      → let d = (delayed_initial_connect now a t c).1.conn in
        (d.thread_start ≡ now)
        × (d.throughput ≡ c.throughput)
        × (d.has_pending ≡ c.has_pending)
        × (d.pending ≡ c.pending)
        × (d.complete ≡ c.complete)
  unfolding delayed_initial_connect connect_socket
  initial_connect_lem now a t c = ground arith

  pub opened_slot :
      {cfg : Config} {rate : F} {clock : ℕ} {c : Connection F} (now : ℕ) (a : Attempt)
      (t : Thread H F)
      → due now 0 rate ≤ now
      → IsSoundSlot cfg rate clock (record { started = false; conn = c })
      → IsSoundSlot cfg rate now
          (record { started = true; conn = (delayed_initial_connect now a t c).1.conn })
  opened_slot {c = c} now a t soon p =
      let opened = initial_connect_lem now a t c in
      let idle = p.fresh refl in
      let rated = p.same_rate in
      record {
        on_plan = ground arith;
        on_rate = record {
          count = 0;
          planned = ground arith;
          limit = ground arith;
          in_batch = ground arith;
        };
        fresh = λ e. absurd (ground arith);
        same_rate = ground arith;
      }

-- ===== src/Life/Rate.antt =====
-- The configured rate is not exceeded.
use wrk.Base.{ℕ, ◌+◌, ◌^◌, ◌≤◌, ◌<◌, arith}
use wrk.Float.{Float}
use wrk.Hdr.{Hdr}
use wrk.Conn.{Config, Connection}
use wrk.Pace.{due}
use wrk.Writer.{begin_batch}
use wrk.Response.{settle}
use wrk.Life.Moves.{Moved, stayed, began, settled, Step-Moved}
use wrk.Life.{State, Reach, here, next}

module _ {F : Type 0} ⦃fl : Float F⦄ where
  -- At most one batch is pending; the responses that have come and those that are pending are at
  -- most one batch more than a number that was due by the plan already.
  pub record OnRate (cfg : Config) (clock : ℕ) (c : Connection F) : Type 0 where
    pub count : ℕ
    pub planned : due c.thread_start count c.throughput ≤ clock
    pub limit : c.complete + c.pending ≤ count + cfg.pipeline
    pub in_batch : c.pending ≤ cfg.pipeline

  pub Moved-OnRate :
      {cfg : Config} {clock later : ℕ} {c d : Connection F}
      → clock ≤ later
      → Moved cfg clock later c d
      → OnRate cfg clock c
      → OnRate cfg later d
  unfolding begin_batch settle
  Moved-OnRate l (stayed same) p = record {
    count = p.count;
    planned = ground arith;
    limit = ground arith;
    in_batch = ground arith;
  }
  Moved-OnRate {cfg} {clock} {later} {c} l (began i m n k planned same) p = record {
    count = c.complete;
    planned = ground arith;
    limit = ground arith;
    in_batch = ground arith;
  }
  Moved-OnRate l (settled busy few count same) p = record {
    count = p.count;
    planned = ground arith;
    limit = ground arith;
    in_batch = ground arith;
  }

module _ {H F : Type 0} ⦃fl : Float F⦄ ⦃hdr : Hdr H⦄ (range : (x : F) → fl.to_u64 x < 2 ^ 64)
    (cfg : Config) where
  -- However the event loop runs the handlers of a connection: if at first, then ever after, at most
  -- one batch of responses is pending, and the responses that the connection has counted and those
  -- that are pending are together at most one batch more than some number that is due by the plan
  -- at the clock. Conversions to uint64_t are taken to give a 64-bit word. A response is taken to
  -- come only while one is pending, and the counts of responses to fit in 64 bits.
  pub Reach-OnRate :
      {s u : State H F} → OnRate cfg s.clock s.conn → Reach cfg s u → OnRate cfg u.clock u.conn
  Reach-OnRate p here = p
  Reach-OnRate p (next r st) =
      let (l, moved) = Step-Moved range cfg st in Moved-OnRate l moved (Reach-OnRate p r)

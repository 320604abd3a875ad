-- ===== src/Loop/Project.antt =====
-- What a run of a thread is for one of its connections.
use wrk.Base.{
  ℕ, ◌≤◌, ◌≡◌, ap, Bool, true, false, some, List, arith, inl, inr, ◌⊎◌, get_elem?, set,
  get_elem?-set,
}
use native.Mathlib.Nat.{le_refl, le_trans}
use mathlib.Core.Path.{subst}
use wrk.Float.{Float}
use wrk.Hdr.{Hdr, HdrReport}
use wrk.Conn.{Config, Connection, Call}
use wrk.Socket.{delayed_initial_connect}
use wrk.Life.{
  State, Handler, connected, write, delay, collect, respond, receive, read_error, own, others,
}
use wrk.Life as Life
use wrk.Loop.{
  Slot, Loop, interrupt, state, Step, opened, handled, stopped_by_script, thread_stop, checked,
  calibrated, sampled, interrupted, Reach, here, next,
}

-- The connection at place `j` after a handler of that at place `i`.
slot_after :
    {F : Type 0} (slots : List (Slot F)) (i j : ℕ) (started : Bool) (b c d : Connection F)
    → get_elem? slots i ≡ some (record { started = started; conn = b })
    → get_elem? slots j ≡ some (record { started = true; conn = c })
    → let slots' = set slots i (record { started = true; conn = d }) in
      ((started ≡ true)
        × (b ≡ c)
        × (get_elem? slots' j ≡ some (record { started = true; conn = d })))
      ⊎ (get_elem? slots' j ≡ some (record { started = true; conn = c }))
slot_after {F} slots i j started b c d e f =
    elim (get_elem?-set slots i j (record { started = started; conn = b })
      (record { started = true; conn = c }) (record { started = true; conn = d }) e f) [
        | inl (same, p) ↦
            inl (ap (λ (s : Slot F). s.started) same, ap (λ (s : Slot F). s.conn) same, p)
        | inr p ↦ inr p
      ]

module _ {H F : Type 0} ⦃fl : Float F⦄ ⦃hdr : Hdr H⦄ {cfg : Config} where
  Life-trans : {s t u : State H F} → Life.Reach cfg s t → Life.Reach cfg t u → Life.Reach cfg s u
  Life-trans r Life.here = r
  Life-trans r (Life.next q st) = Life.next (Life-trans r q) st

  Handler-clock : {s u : State H F} {calls : List Call} → Handler cfg s u calls → s.clock ≤ u.clock
  Handler-clock (connected s status a fd) = le_refl _
  Handler-clock (write s i fd l m n small) = omega arith
  Handler-clock (delay s now l small) = l
  Handler-clock (collect s capture) = le_refl _
  Handler-clock (respond s i out l small busy few count e) = l
  Handler-clock (receive s count) = le_refl _
  Handler-clock (read_error s r) = le_refl _

module _ {H F : Type 0} ⦃fl : Float F⦄ ⦃hdr : Hdr H⦄ ⦃report : HdrReport H F⦄ (cfg : Config) where
  -- The connection at place `j` of a thread goes from `c` in `w` to some connection in `v`.
  abbrev Projects : ℕ → Loop H F → Connection F → Loop H F → Type 0
  Projects j w c v =
      (d : Connection F) × (get_elem? v.slots j ≡ some (record { started = true; conn = d }))
      × Life.Reach cfg (state w c) (state v d)

  Step-Projects :
      {w v : Loop H F} (j : ℕ) (c : Connection F)
      → Step cfg w v
      → get_elem? w.slots j ≡ some (record { started = true; conn = c })
      → Projects j w c v
  unfolding interrupt thread_stop
  Step-Projects j c (opened w i b now a e l small) f =
      elim (slot_after w.slots i j false b c (delayed_initial_connect now a w.thread b).1.conn e
        f) [
          | inl (same, q, p) ↦ absurd (cc same)
          | inr p ↦ (c, p, Life.next Life.here (others (state w c) now _ l))
        ]
  Step-Projects j c (handled w i b {u} {calls} e small h) f =
      elim (slot_after w.slots i j true b c u.conn e f) [
        | inl (q, same, p) ↦ (
          u.conn,
          p,
          Life.next Life.here
              (own (subst (λ (b : Connection F). Handler cfg (state w b) u calls) same h)),
        )
        | inr p ↦ (c, p, Life.next Life.here (others (state w c) u.clock _ (Handler-clock h)))
      ]
  Step-Projects j c (stopped_by_script w i b {u} {calls} e small h runs) f =
      elim (slot_after w.slots i j true b c u.conn e f) [
        | inl (q, same, p) ↦ (
          u.conn,
          p,
          Life.next Life.here
              (own (subst (λ (b : Connection F). Handler cfg (state w b) u calls) same h)),
        )
        | inr p ↦ (c, p, Life.next Life.here (others (state w c) u.clock _ (Handler-clock h)))
      ]
  Step-Projects j c (checked w now l) f = (c, f, Life.next Life.here (others (state w c) now _ l))
  Step-Projects j c (calibrated w now l) f =
      (c, f, Life.next Life.here (others (state w c) now _ l))
  Step-Projects j c (sampled w now later statistics l m) f =
      (c, f, Life.next Life.here (others (state w c) later _ (le_trans l m)))
  Step-Projects j c (interrupted w) f = (c, f, Life.here)

  -- A run of a thread is, for each of its connections from its opening on, a run of that connection
  -- alone, in which the other connections and the timers do no more than let time go by and change
  -- the thread.
  Reach-Projects :
      {w v : Loop H F} (j : ℕ) (c : Connection F)
      → get_elem? w.slots j ≡ some (record { started = true; conn = c })
      → Reach cfg w v
      → Projects j w c v
  Reach-Projects j c e here = (c, e, Life.here)
  Reach-Projects j c e (next r st) =
      let (d, f, run) = Reach-Projects j c e r in
      let (d', f', more) = Step-Projects j d st f in (d', f', Life-trans run more)

-- ===== src/Script/Request/Init.antt =====
-- The start of a thread's script: what `script_init` of src/script.c calls, and in which order.
use wrk.Base.{ℕ, ◌+◌, ◌≡◌, refl, ap, ◌∙◌, Option, none, some, List, [], ◌∷◌, arith, codes}
use wrk.Float.{Float}
use wrk.Lua.{
  thread_box, Value, number, string, table, userdata, Heap, Machine, in_call, Result, ok, raised,
  Step, ◌>>◌,
}
use wrk.Lua.Api.{pop, newtable, getfield, call, from_top}
use wrk.Lua.Seq.{bind_ok}
use wrk.Script.Copy.{Both, on_src, on_dst}
use wrk.Script.Request.{script_push_thread, push_args, script_init}

module _ {W F : Type 0} (heap : Heap W F) where
  -- A heap with a userdata for the thread, and its reference.
  abbrev pub with_thread : W → ℕ → ℕ × W
  with_thread w t =
      let (u, w1) = heap.new_userdata w (thread_box t) in
      (u, heap.set_metatable w1 u (heap.registry w1 (codes "wrk.thread")))

module _ {W F : Type 0} ⦃fl : Float F⦄ (heap : Heap W F) where
  -- The assignments of the arguments to a table.
  abbrev pub put_args : W → ℕ → List (List ℕ) → ℕ → W
  put_args w a [] i = w
  put_args w a (arg ∷ args) i =
      put_args (heap.put w a (number (fl.of_i64 i)) (string arg)) a args (i + 1)

  -- The call of `init` of the thread's `wrk`, with a new table of the arguments.
  abbrev pub call_init :
      Machine W F → List (Value F) → W → ℕ → List (List ℕ) → Result F (Unit {0} × Both W F)
  call_init src st w t0 args =
      let f = heap.get w t0 (string (codes "init")) in
      let (a, w1) = heap.new_table w in
      elim (heap.call (put_args w1 a args 0) f (table a ∷ [])) [
        | none ↦ raised (in_call f)
        | some (results, w2) ↦ ok (tt, record { src = src; dst = record { stack = st; heap = w2 } })
      ]

module _ {W F : Type 0} ⦃fl : Float F⦄ ⦃heap : Heap W F⦄ where
  push_args_lem :
      (a : ℕ) (args : List (List ℕ)) (i : ℕ) (src : Machine W F) (st : List (Value F)) (w : W)
      → on_dst
          (push_args args i)
          (record { src = src; dst = record { stack = table a ∷ st; heap = w } })
        ≡ ok (
          tt,
          record {
            src = src;
            dst = record { stack = table a ∷ st; heap = put_args heap w a args i };
          },
        )
  unfolding push_args
  push_args_lem a [] i src st w = refl
  push_args_lem a (arg ∷ args) i src st w =
      push_args_lem a args (i + 1) src st (heap.put w a (number (fl.of_i64 i)) (string arg))

  -- The part of `script_init` behind the call of `setup`.
  abbrev init_part : List (List ℕ) → Step (Both W F) F (Unit {0})
  init_part args = do
    on_dst (getfield (from_top 1) (codes "init"))
    on_dst newtable
    on_dst (push_args args 0)
    on_dst (call 1 0)
    on_dst (pop 1)

  init_part_lem :
      (args : List (List ℕ)) (src : Machine W F) (t0 : ℕ) (st : List (Value F)) (w : W)
      → init_part args (record { src = src; dst = record { stack = table t0 ∷ st; heap = w } })
        ≡ call_init heap src st w t0 args
  init_part_lem args src t0 st w =
      let f = heap.get w t0 (string (codes "init")) in
      let (a, w1) = heap.new_table w in
      let s : Both W F = record {
        src = src;
        dst = record { stack = table a ∷ f ∷ table t0 ∷ st; heap = w1 };
      } in
      bind_ok (on_dst (push_args args 0)) (λ _. on_dst (call 1 0) >> on_dst (pop 1)) s
        (push_args_lem a args 0 src (f ∷ table t0 ∷ st) w1)
      ∙ ground arith

  -- The call of `setup` and what comes behind it.
  abbrev setup_part : (Machine W F → Machine W F) → List (List ℕ) → Step (Both W F) F (Unit {0})
  setup_part touch args = do
    on_src (call 1 0)
    λ s. ok (tt, record s { dst = touch s.dst })
    on_src (pop 1)
    init_part args

  setup_part_lem :
      (touch : Machine W F → Machine W F) (args : List (List ℕ)) (f v : Value F) (t0 : ℕ)
      (x : Value F) (st st' : List (Value F)) (w1 w' : W) (r : Option (List (Value F) × W))
      → heap.call w1 f (v ∷ []) ≡ r
      → ((m : Machine W F) → (touch m).stack ≡ m.stack)
      → let dst : Machine W F = record { stack = table t0 ∷ st'; heap = w' } in
        setup_part touch args
          (record { src = record { stack = v ∷ f ∷ x ∷ st; heap = w1 }; dst = dst })
        ≡ elim r [
          | none ↦ raised (in_call f)
          | some (results, w2) ↦
              call_init heap (record { stack = st; heap = w2 }) st' (touch dst).heap t0 args
        ]
  setup_part_lem touch args f v t0 x st st' w1 w' none h keeps = rw h
  setup_part_lem touch args f v t0 x st st' w1 w' (some (results, w2)) h keeps =
      let dst : Machine W F = record { stack = table t0 ∷ st'; heap = w' } in
      let src : Machine W F = record { stack = st; heap = w2 } in
      let kept : touch dst ≡ record { stack = table t0 ∷ st'; heap = (touch dst).heap } =
        ap (λ k. record { stack = k; heap = (touch dst).heap }) (keeps dst) in
      rw h (
        ap (λ (m : Machine W F). init_part args (record { src = src; dst = m })) kept
        ∙ init_part_lem args src t0 st' (touch dst).heap)

  -- If both states have their table `wrk`, and the call of `setup` leaves the stack of the thread as it is,
  -- then: the thread's `wrk` gets its `thread`; `setup` of the process's `wrk` is called once with the
  -- thread; after it `init` of the thread's `wrk` is called once, with a new table that has the
  -- arguments from index 0 on. Both stacks are left as they were; an error of either call is passed on.
  pub script_init_lem :
      (touch : Machine W F → Machine W F) (t t0 t1 : ℕ) (args : List (List ℕ))
      (st st' : List (Value F)) (w w' : W)
      → heap.global w (codes "wrk") ≡ table t1
      → heap.global w' (codes "wrk") ≡ table t0
      → ((m : Machine W F) → (touch m).stack ≡ m.stack)
      → let (u, w1) = with_thread heap w t in
        let (u', w2') = with_thread heap w' t in
        let w3' = heap.put w2' t0 (string (codes "thread")) (userdata u' (thread_box t)) in
        let f = heap.get w t1 (string (codes "setup")) in
        script_init touch t args (record {
          src = record { stack = st; heap = w };
          dst = record { stack = st'; heap = w' };
        })
        ≡ elim (heap.call w1 f (userdata u (thread_box t) ∷ [])) [
          | none ↦ raised (in_call f)
          | some (results, w2) ↦
              call_init heap
                (record { stack = st; heap = w2 })
                st'
                (touch (record { stack = table t0 ∷ st'; heap = w3' })).heap
                t0
                args
        ]
  unfolding script_init script_push_thread
  script_init_lem touch t t0 t1 args st st' w w' wrk wrk' keeps =
      let (u, w1) = with_thread heap w t in
      let (u', w2') = with_thread heap w' t in
      let w3' = heap.put w2' t0 (string (codes "thread")) (userdata u' (thread_box t)) in
      let f = heap.get w t1 (string (codes "setup")) in
      let v : Value F = userdata u (thread_box t) in
      rw (wrk', wrk)
        (setup_part_lem touch args f v t0 (table t1) st st' w1 w3' (heap.call w1 f (v ∷ [])) refl
          keeps)

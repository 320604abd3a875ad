-- ===== src/Script/Thread/Tables.antt =====
-- The global of a thread that holds a table, as `script_thread_get` of src/script.c hands it over.
use wrk.Base.{ℕ, ◌+◌, ◌<◌, ◌≡◌, List, [], ◌∷◌, arith, length, until_nul, All}
use wrk.Lua.{Value, nil, table, Heap, Machine, Result, ok, fault, Step, ◌>>◌}
use wrk.Lua.Api.{pop, getglobal}
use wrk.Lua.Seq.{bind_ok}
use wrk.Script.Copy.{Both, on_src, script_copy_value}
use wrk.Script.Copy.Flat.{ArePlain, Follows, put_swapped, copy_table}
use wrk.Script.Thread.{Peer, Calling, set_peer, from_peer, script_thread_get}
use wrk.Script.Thread.Share.{get_frame}

module _ {W F : Type 0} ⦃heap : Heap W F⦄ where
  -- What `lua_pop(t->L, 1)` of `script_thread_get` leaves, when the copy has taken the table off already.
  abbrev pub after_table : (ℕ → Peer W F) → ℕ → Machine W F → Result F (Unit {0} × Calling W F)
  after_table peers t lua = elim (peers t).machine.stack [
    | [] ↦ fault
    | x ∷ st ↦ ok (
      tt,
      record {
        lua = lua;
        peers =
            set_peer peers t
              (record (peers t) { machine = record { stack = st; heap = (peers t).machine.heap } });
      },
    )
  ]

  -- The pop on the thread's side, after code that leaves its stack as it was.
  from_peer-pop :
      (t : ℕ) (m : Step (Both W F) F (Unit {0})) (s : Calling W F) (lua : Machine W F)
      → m (record { src = (s.peers t).machine; dst = s.lua })
        ≡ on_src (pop 1) (record { src = (s.peers t).machine; dst = lua })
      → from_peer t m s ≡ after_table s.peers t lua
  from_peer-pop t m s lua h = ground arith

  -- With more fuel than there are pairs and one more: the value of a global of a thread that holds a table of plain
  -- values, none of them NaN. The caller has a table in which each key is stored under its value, but the
  -- thread's own stack has lost the value that was on top of it before; if it was empty, what is
  -- taken off is no value at all.
  pub get_table :
      (fuel r t u : ℕ) (name : List ℕ) (pairs : List (Value F × Value F)) (w : W)
      (peers : ℕ → Peer W F)
      → heap.global (peers t).machine.heap (until_nul name) ≡ table u
      → Follows (peers t).machine.heap u nil pairs
      → All (ArePlain heap.is_nan) pairs
      → length pairs + 1 < fuel
      → let (t', w') = heap.new_table w in
        script_thread_get fuel
          (record { lua = record { stack = get_frame r t name; heap = w }; peers = peers })
        ≡ after_table peers t
            (record { stack = table t' ∷ get_frame r t name; heap = put_swapped w' t' pairs })
  unfolding script_thread_get
  get_table fuel r t u name pairs w peers at follows plain enough =
      let key = until_nul name in
      let p = (peers t).machine in
      let lua : Machine W F = record { stack = get_frame r t name; heap = w } in
      let b : Both W F = record {
        src = record { stack = heap.global p.heap key ∷ p.stack; heap = p.heap };
        dst = lua;
      } in
      let (t', w') = heap.new_table w in
      let lua' : Machine W F = record {
        stack = table t' ∷ get_frame r t name;
        heap = put_swapped w' t' pairs;
      } in
      let copied : script_copy_value fuel 1 b ≡ ok (tt, record { src = p; dst = lua' }) =
        rw at (copy_table fuel u pairs p.stack p.heap lua follows plain enough) in
      from_peer-pop t (on_src (getglobal key) >> (script_copy_value fuel 1 >> on_src (pop 1)))
        (record { lua = lua; peers = peers }) lua'
        (bind_ok (script_copy_value fuel 1) (λ _. on_src (pop 1)) b copied)

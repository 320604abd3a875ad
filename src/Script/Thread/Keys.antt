-- ===== src/Script/Thread/Keys.antt =====
-- The fields of a thread: `script_thread_index` and `script_thread_newindex`.
use wrk.Base.{ℕ, ◌≡◌, refl, ap, false, some, List, [], ◌∷◌, arith, codes, same_bytes, until_nul}
use wrk.Lua.{Addr, addr_box, thread_box, Value, string, userdata, Heap, cannot_set, ok, raised}
use wrk.Script.Thread.Share.{set_peer_same}
use wrk.Script.Thread.{
  Peer, Calling, set_peer, script_addr_copy, script_addr_clone, script_thread_index,
  script_thread_newindex,
}

module _ {F : Type 0} where
  -- The frame of a read of a field, and that of a write.
  abbrev pub index_frame : ℕ → ℕ → List ℕ → List (Value F)
  index_frame r t key = string key ∷ userdata r (thread_box t) ∷ []

  abbrev pub newindex_frame : ℕ → ℕ → List ℕ → Value F → List (Value F)
  newindex_frame r t key v = v ∷ string key ∷ userdata r (thread_box t) ∷ []

module _ {W F : Type 0} ⦃heap : Heap W F⦄ where
  -- A field that is none of "get", "set", "stop" and "addr" reads as its own name: nothing is
  -- pushed, and the key is on top of the frame.
  pub index_unknown :
      (r t : ℕ) (key : List ℕ) (w : W) (peers : ℕ → Peer W F)
      → same_bytes (codes "get") (until_nul key) ≡ false
      → same_bytes (codes "set") (until_nul key) ≡ false
      → same_bytes (codes "stop") (until_nul key) ≡ false
      → same_bytes (codes "addr") (until_nul key) ≡ false
      → let s : Calling W F = record {
        lua = record { stack = index_frame r t key; heap = w };
        peers = peers;
      } in
        script_thread_index s ≡ ok (tt, s)
  unfolding script_thread_index
  index_unknown r t key w peers g st sp a = ground arith

  -- Only the address of a thread can be set: any other field raises an error with the value.
  pub newindex_other :
      (r t : ℕ) (key : List ℕ) (v : Value F) (w : W) (peers : ℕ → Peer W F)
      → same_bytes (codes "addr") (until_nul key) ≡ false
      → script_thread_newindex
          (record { lua = record { stack = newindex_frame r t key v; heap = w }; peers = peers })
        ≡ raised (cannot_set v)
  unfolding script_thread_newindex
  newindex_other r t key v w peers h = ground arith

  -- An address that a script stores in a thread: a read of the field then gives a new userdata with
  -- the same address and the metatable of addresses, and the thread keeps its stack.
  pub set_addr_get :
      (r r' u t : ℕ) (a : Addr) (w w' : W) (peers : ℕ → Peer W F)
      → (peers' : ℕ → Peer W F) × (script_thread_newindex (record {
        lua = record {
          stack = newindex_frame r t (codes "addr") (userdata u (addr_box a));
          heap = w;
        };
        peers = peers;
      })
          ≡ ok (
            tt,
            record {
              lua = record {
                stack = newindex_frame r t (codes "addr") (userdata u (addr_box a));
                heap = w;
              };
              peers = peers';
            },
          ))
        × ((peers' t).machine ≡ (peers t).machine)
        × (let (u', w1) = heap.new_userdata w' (addr_box a) in
            script_thread_index (record {
              lua = record { stack = index_frame r' t (codes "addr"); heap = w' };
              peers = peers';
            })
            ≡ ok (
              tt,
              record {
                lua = record {
                  stack = userdata u' (addr_box a) ∷ index_frame r' t (codes "addr");
                  heap = heap.set_metatable w1 u' (heap.registry w1 (codes "wrk.addr"));
                };
                peers = peers';
              },
            ))
  unfolding script_thread_newindex script_thread_index script_addr_copy script_addr_clone same_bytes
  set_addr_get r r' u t a w w' peers =
      let p : Peer W F = record (peers t) { addr = some a } in
      let now = set_peer_same peers t p in
      (set_peer peers t p, refl, ap (λ (q : Peer W F). q.machine) now, rw now)

-- ===== src/Script/Thread/Share.antt =====
-- What a script reads of a thread's globals, and what it stores there.
use mathlib.Core.Path.{subst}
use wrk.Base.{
  ℕ, suc, ◌≡◌, ◌≢◌, refl, ap, ◌∙◌, true, some, List, [], ◌∷◌, arith, until_nul, until_nul-until_nul,
}
use wrk.Lua.{
  thread_box, Value, nil, boolean, number, string, table, function, cfunction, userdata, Heap,
  Machine, ok, fault, Step, ◌>>◌,
}
use wrk.Lua.Api.{pop, getglobal, setglobal}
use wrk.Lua.Laws.{HeapLaws}
use wrk.Lua.Seq.{bind_ok}
use wrk.Script.Copy.{Both, on_src, on_dst, script_copy_value}
use wrk.Script.Copy.Flat.{is_plain, copy_of, copy_plain}
use wrk.Script.Thread.{
  Peer, Calling, set_peer, from_peer, to_peer, script_thread_get, script_thread_set,
}

pub set_peer_same : {A : Type 0} (peers : ℕ → A) (t : ℕ) (p : A) → set_peer peers t p t ≡ p
set_peer_same peers t p = ground arith

is_plain-copy_of : {F : Type 0} (v : Value F) → is_plain v ≡ true → is_plain (copy_of v) ≡ true
is_plain-copy_of nil h = refl
is_plain-copy_of (boolean b) h = refl
is_plain-copy_of (number n) h = refl
is_plain-copy_of (string s) h = refl
is_plain-copy_of (table t) h = cc
is_plain-copy_of (function r) h = cc
is_plain-copy_of (cfunction c) h = cc
is_plain-copy_of (userdata r u) h = cc

copy_of-copy_of : {F : Type 0} (v : Value F) → copy_of (copy_of v) ≡ copy_of v
copy_of-copy_of nil = refl
copy_of-copy_of (boolean b) = refl
copy_of-copy_of (number n) = refl
copy_of-copy_of (string s) = ap string (until_nul-until_nul s)
copy_of-copy_of (table t) = refl
copy_of-copy_of (function r) = refl
copy_of-copy_of (cfunction c) = refl
copy_of-copy_of (userdata r u) = refl

module _ {F : Type 0} where
  -- The frame of a method call with a name.
  abbrev pub get_frame : ℕ → ℕ → List ℕ → List (Value F)
  get_frame r t name = string name ∷ userdata r (thread_box t) ∷ []

  abbrev pub set_frame : ℕ → ℕ → List ℕ → Value F → List (Value F)
  set_frame r t name v = v ∷ string name ∷ userdata r (thread_box t) ∷ []

module _ {W F : Type 0} where
  from_peer-ok :
      {A : Type 0} (t : ℕ) (m : Step (Both W F) F A) (s : Calling W F) {a : A} {b : Both W F}
      → m (record { src = (s.peers t).machine; dst = s.lua }) ≡ ok (a, b)
      → from_peer t m s
        ≡ ok (
          a,
          record {
            lua = b.dst;
            peers = set_peer s.peers t (record (s.peers t) { machine = b.src });
          },
        )
  from_peer-ok t m s h = rw (h, from_peer)

  to_peer-ok :
      {A : Type 0} (t : ℕ) (m : Step (Both W F) F A) (s : Calling W F) {a : A} {b : Both W F}
      → m (record { src = s.lua; dst = (s.peers t).machine }) ≡ ok (a, b)
      → to_peer t m s
        ≡ ok (
          a,
          record {
            lua = b.src;
            peers = set_peer s.peers t (record (s.peers t) { machine = b.dst });
          },
        )
  to_peer-ok t m s h = rw (h, to_peer)

  from_peer-fault :
      {A : Type 0} (t : ℕ) (m : Step (Both W F) F A) (s : Calling W F)
      → m (record { src = (s.peers t).machine; dst = s.lua }) ≡ fault
      → from_peer t m s ≡ fault
  from_peer-fault t m s h = rw (h, from_peer)

module _ {W F : Type 0} ⦃heap : Heap W F⦄ where
  -- The value of a plain global of the thread.
  get_plain :
      (fuel r t : ℕ) (name : List ℕ) (v : Value F) (w : W) (peers : ℕ → Peer W F)
      → heap.global (peers t).machine.heap (until_nul name) ≡ v
      → is_plain v ≡ true
      → script_thread_get
          (suc fuel)
          (record { lua = record { stack = get_frame r t name; heap = w }; peers = peers })
        ≡ ok (
          tt,
          record {
            lua = record { stack = copy_of v ∷ get_frame r t name; heap = w };
            peers = set_peer peers t (peers t);
          },
        )
  unfolding script_thread_get
  get_plain fuel r t name v w peers at plain =
      let key = until_nul name in
      let p = (peers t).machine in
      let lua : Machine W F = record { stack = get_frame r t name; heap = w } in
      let b : Both W F = record {
        src = record { stack = heap.global p.heap key ∷ p.stack; heap = p.heap };
        dst = lua;
      } in
      from_peer-ok t (on_src (getglobal key) >> (script_copy_value (suc fuel) 1 >> on_src (pop 1)))
        (record { lua = lua; peers = peers })
        (bind_ok (script_copy_value (suc fuel) 1) (λ _. on_src (pop 1)) b
          (copy_plain fuel 1 v b (ap some at) plain))

  set_plain :
      (fuel r t : ℕ) (name : List ℕ) (v : Value F) (w : W) (peers : ℕ → Peer W F)
      → is_plain v ≡ true
      → script_thread_set
          (suc fuel)
          (record { lua = record { stack = set_frame r t name v; heap = w }; peers = peers })
        ≡ ok (
          tt,
          record {
            lua = record { stack = set_frame r t name v; heap = w };
            peers = set_peer peers t (record (peers t) {
              machine = record {
                stack = (peers t).machine.stack;
                heap = heap.set_global (peers t).machine.heap (until_nul name) (copy_of v);
              };
            });
          },
        )
  unfolding script_thread_set
  set_plain fuel r t name v w peers plain =
      let lua : Machine W F = record { stack = set_frame r t name v; heap = w } in
      let b : Both W F = record { src = lua; dst = (peers t).machine } in
      to_peer-ok t (script_copy_value (suc fuel) 1 >> on_dst (setglobal (until_nul name)))
        (record { lua = lua; peers = peers })
        (bind_ok (script_copy_value (suc fuel) 1) (λ _. on_dst (setglobal (until_nul name))) b
          (copy_plain fuel 1 v b refl plain))

module _ {W F : Type 0} ⦃heap : Heap W F⦄ (laws : HeapLaws W F) where
  -- A plain value that a script stores under a name in a thread, with any fuel but 0: the thread's
  -- stack and the other threads stay as they were, and a `get` of the same name brings the value
  -- back, a string up to its first NUL.
  pub set_get :
      (fuel fuel' r r' t : ℕ) (name : List ℕ) (v : Value F) (w w' : W) (peers : ℕ → Peer W F)
      → is_plain v ≡ true
      → (peers' : ℕ → Peer W F) × (script_thread_set
            (suc fuel)
            (record { lua = record { stack = set_frame r t name v; heap = w }; peers = peers })
          ≡ ok (
            tt,
            record { lua = record { stack = set_frame r t name v; heap = w }; peers = peers' },
          ))
        × ((peers' t).machine.stack ≡ (peers t).machine.stack)
        × ((u : ℕ) → u ≢ t → peers' u ≡ peers u)
        × (script_thread_get
              (suc fuel')
              (record { lua = record { stack = get_frame r' t name; heap = w' }; peers = peers' })
            ≡ ok (
              tt,
              record {
                lua = record { stack = copy_of v ∷ get_frame r' t name; heap = w' };
                peers = set_peer peers' t (peers' t);
              },
            ))
  set_get fuel fuel' r r' t name v w w' peers plain =
      let p : Peer W F = record (peers t) {
        machine = record {
          stack = (peers t).machine.stack;
          heap = heap.set_global (peers t).machine.heap (until_nul name) (copy_of v);
        };
      } in
      let peers' : ℕ → Peer W F = set_peer peers t p in
      let now : peers' t ≡ p = set_peer_same peers t p in
      let stored : heap.global (peers' t).machine.heap (until_nul name) ≡ copy_of v =
        ap (λ (q : Peer W F). heap.global q.machine.heap (until_nul name)) now
        ∙ laws.global-set_global (peers t).machine.heap (until_nul name) (copy_of v) in
      (
        peers',
        set_plain fuel r t name v w peers plain,
        ap (λ (q : Peer W F). q.machine.stack) now,
        (λ u apart. ground arith),
        subst
            (λ x.
              script_thread_get (suc fuel')
                (record { lua = record { stack = get_frame r' t name; heap = w' }; peers = peers' })
              ≡ ok (
                tt,
                record {
                  lua = record { stack = x ∷ get_frame r' t name; heap = w' };
                  peers = set_peer peers' t (peers' t);
                },
              ))
            (copy_of-copy_of v)
            (get_plain fuel' r' t name (copy_of v) w' peers' stored (is_plain-copy_of v plain)),
      )

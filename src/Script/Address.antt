-- ===== src/Script/Address.antt =====
-- The addresses that a script handles, and the functions that `wrk` gives it: src/script.c. What the
-- name service, the sockets and the clock answer is a parameter.
use wrk.Base.{
  ℕ, ◌+◌, ◌*◌, ◌%◌, ◌^◌, ◌<◌, ◌≡◌, ◌≢◌, ◌⊎◌, inl, inr, refl, ap, ◌∙◌, Bool, false, Option, none,
  some, List, [], ◌∷◌, ◌++◌, arith, length, codes, until_nul,
}
use wrk.Float.{Float}
use wrk.Lua.{
  Addr, addr_box, Value, boolean, number, string, table, userdata, Heap, Machine, tostring_failed,
  ok, M, pure, ◌>>=◌, ◌>>◌,
}
use wrk.Lua.Api.{fail, push, newtable, rawseti, from_top, c_text_at}
use wrk.Lua.Laws.{HeapLaws}
use wrk.Lua.Seq.{bind_ok}
use wrk.Script.Thread.{checkaddr, script_addr_clone, script_addr_copy}

-- How a C function ends: it returns to Lua, or the process exits with a code.
pub data Outcome : Type 0 where
  returns : Outcome
  exits : ℕ → Outcome

-- `struct timeval`
pub record Timeval : Type 0 where
  pub tv_sec : ℕ
  pub tv_usec : ℕ

module _ {W F : Type 0} where
  -- `names` is `getnameinfo`: an error code, or the texts of the host and the service.
  unfoldable pub script_addr_tostring : (Addr → ℕ ⊎ (List ℕ × List ℕ)) → M W F (Unit {0})
  unfolding checkaddr
  script_addr_tostring names = do
    addr ← checkaddr
    elim (names addr) [
      | inl rc ↦ fail (tostring_failed rc)
      | inr (host, service) ↦ push (string (host ++ codes ":" ++ service))
    ]

  -- `opens` is `socket`, and `connects` is `connect(...) == 0`.
  unfoldable pub script_wrk_connect :
      (ℕ → ℕ → ℕ → Option ℕ) → (ℕ → List ℕ → Bool) → M W F (Unit {0})
  unfolding checkaddr
  script_wrk_connect opens connects = do
    addr ← checkaddr
    push (
        boolean (elim (opens addr.family addr.socktype addr.protocol) [
          | none ↦ false
          | some fd ↦ connects fd addr.bytes
        ]))

module _ {W F : Type 0} ⦃fl : Float F⦄ where
  unfoldable pub script_wrk_time_us : Timeval → M W F (Unit {0})
  script_wrk_time_us tv = push (number (fl.of_u64 ((tv.tv_sec * 1000000 + tv.tv_usec) % 2 ^ 64)))

module _ {W F : Type 0} ⦃fl : Float F⦄ ⦃heap : Heap W F⦄ where
  -- The `for` loop over the addresses; `index` is an int.
  unfoldable pub push_addrs : List Addr → ℕ → M W F (Unit {0})
  unfolding script_addr_clone
  push_addrs [] index = pure tt
  push_addrs (addr ∷ addrs) index = do
    script_addr_clone addr
    rawseti (from_top 2) (fl.of_i64 index)
    push_addrs addrs (index + 1)

  -- `resolve` is `getaddrinfo` with the hints of the code: an error code, or the addresses.
  unfoldable pub script_wrk_lookup :
      (Option (List ℕ) → Option (List ℕ) → ℕ ⊎ List Addr) → M W F Outcome
  unfolding push_addrs
  script_wrk_lookup resolve = do
    host ← c_text_at (from_top 2)
    service ← c_text_at (from_top 1)
    elim (resolve host service) [
      | inl rc ↦ pure (exits 1)
      | inr addrs ↦ (do newtable; push_addrs addrs 1; pure returns)
    ]

module _ {W F : Type 0} ⦃fl : Float F⦄ (heap : Heap W F) where
  -- The heap after the loop, for a table on top.
  abbrev pub with_addrs : W → ℕ → List Addr → ℕ → W
  with_addrs w t [] index = w
  with_addrs w t (addr ∷ addrs) index =
      let (r, w1) = heap.new_userdata w (addr_box addr) in
      let w2 = heap.set_metatable w1 r (heap.registry w1 (codes "wrk.addr")) in
      with_addrs (heap.put w2 t (number (fl.of_i64 index)) (userdata r (addr_box addr))) t addrs
        (index + 1)

  -- The table has userdata with these addresses, in order, from an index on.
  abbrev pub HasAddrs : W → ℕ → List Addr → ℕ → Type 0
  HasAddrs w t [] index = Unit
  HasAddrs w t (addr ∷ addrs) index =
      ((r : ℕ) × (heap.get w t (number (fl.of_i64 index)) ≡ userdata r (addr_box addr)))
      × HasAddrs w t addrs (index + 1)

module _ {W F : Type 0} ⦃fl : Float F⦄ ⦃heap : Heap W F⦄ where
  push_addrs_lem :
      (t : ℕ) (addrs : List Addr) (index : ℕ) (st : List (Value F)) (w : W)
      → push_addrs addrs index (record { stack = table t ∷ st; heap = w })
        ≡ ok (tt, record { stack = table t ∷ st; heap = with_addrs heap w t addrs index })
  unfolding push_addrs script_addr_clone script_addr_copy
  push_addrs_lem t [] index st w = refl
  push_addrs_lem t (addr ∷ addrs) index st w =
      let (r, w1) = heap.new_userdata w (addr_box addr) in
      let w2 = heap.set_metatable w1 r (heap.registry w1 (codes "wrk.addr")) in
      push_addrs_lem t addrs (index + 1) st
        (heap.put w2 t (number (fl.of_i64 index)) (userdata r (addr_box addr)))

-- Numbers are exact below 2^53.
abbrev pub IsExact : {F : Type 0} → Float F → Type 0
IsExact fl = (i j : ℕ) → i < 2 ^ 53 → j < 2 ^ 53 → i ≢ j → fl.of_i64 i ≢ fl.of_i64 j

abbrev as_number_or : {F : Type 0} → F → Value F → F
as_number_or d (number n) = n
as_number_or d _ = d

module _ {W F : Type 0} (fl : Float F) (heap : Heap W F) (laws : HeapLaws W F ⦃heap = heap⦄)
    (exact : IsExact fl) where
  with_addrs-below :
      (w : W) (t : ℕ) (addrs : List Addr) (index i : ℕ)
      → i < index
      → index + length addrs < 2 ^ 53
      → heap.get (with_addrs ⦃fl = fl⦄ heap w t addrs index) t (number (fl.of_i64 i))
        ≡ heap.get w t (number (fl.of_i64 i))
  with_addrs-below w t [] index i below small = refl
  with_addrs-below w t (addr ∷ addrs) index i below small =
      let (r, w1) = heap.new_userdata w (addr_box addr) in
      let m = heap.registry w1 (codes "wrk.addr") in
      let w2 = heap.set_metatable w1 r m in
      let v : Value F = userdata r (addr_box addr) in
      let apart : ◌≢◌ {A = Value F} (number (fl.of_i64 index)) (number (fl.of_i64 i)) = λ e.
        exact index i (omega arith) (omega arith) (omega arith)
          (ap (as_number_or (fl.of_i64 i)) e) in
      with_addrs-below (heap.put w2 t (number (fl.of_i64 index)) v) t addrs (index + 1) i
        (omega arith) (omega arith)
      ∙ laws.get-put_key w2 t (number (fl.of_i64 index)) (number (fl.of_i64 i)) v apart
      ∙ laws.get-set_metatable w1 r t m (number (fl.of_i64 i))
      ∙ laws.get-new_userdata w (addr_box addr) t (number (fl.of_i64 i))

  with_addrs-HasAddrs :
      (w : W) (t : ℕ) (addrs : List Addr) (index : ℕ)
      → index + length addrs < 2 ^ 53
      → HasAddrs ⦃fl = fl⦄ heap (with_addrs ⦃fl = fl⦄ heap w t addrs index) t addrs index
  with_addrs-HasAddrs w t [] index small = tt
  with_addrs-HasAddrs w t (addr ∷ addrs) index small =
      let (r, w1) = heap.new_userdata w (addr_box addr) in
      let w2 = heap.set_metatable w1 r (heap.registry w1 (codes "wrk.addr")) in
      let v : Value F = userdata r (addr_box addr) in
      let w3 = heap.put w2 t (number (fl.of_i64 index)) v in
      (
        (
          r,
          with_addrs-below w3 t addrs (index + 1) index (omega arith) (omega arith)
              ∙ laws.get-put_self w2 t (number (fl.of_i64 index)) v,
        ),
        with_addrs-HasAddrs w3 t addrs (index + 1) (omega arith),
      )

  -- If the name service has addresses, fewer than 2^31 - 1, for the host and the service that are on
  -- the stack, a script's `lookup` returns a new table on top, which has them as userdata from index 1
  -- on, in order; if it has an error, the process exits with 1.
  pub script_wrk_lookup_lem :
      (resolve : Option (List ℕ) → Option (List ℕ) → ℕ ⊎ List Addr) (host service : List ℕ)
      (st : List (Value F)) (w : W)
      → let s : Machine W F = record { stack = string service ∷ string host ∷ st; heap = w } in
        ((rc : ℕ)
          → resolve (some (until_nul host)) (some (until_nul service)) ≡ inl rc
          → script_wrk_lookup ⦃fl = fl⦄ ⦃heap = heap⦄ resolve s ≡ ok (exits 1, s))
        × ((addrs : List Addr)
            → resolve (some (until_nul host)) (some (until_nul service)) ≡ inr addrs
            → 1 + length addrs < 2 ^ 31
            → let t = (heap.new_table w).0 in
              (w' : W) × (script_wrk_lookup ⦃fl = fl⦄ ⦃heap = heap⦄ resolve s
                ≡ ok (
                  returns,
                  record { stack = table t ∷ string service ∷ string host ∷ st; heap = w' },
                ))
              × HasAddrs ⦃fl = fl⦄ heap w' t addrs 1)
  unfolding script_wrk_lookup
  script_wrk_lookup_lem resolve host service st w = (
    (λ rc h. rw h),
    λ addrs h small.
        let (t, w1) = heap.new_table w in
        (
          with_addrs ⦃fl = fl⦄ heap w1 t addrs 1,
          rw h (
              bind_ok (push_addrs ⦃fl = fl⦄ ⦃heap = heap⦄ addrs 1) (λ _. pure returns)
                (record { stack = table t ∷ string service ∷ string host ∷ st; heap = w1 })
                (push_addrs_lem ⦃fl = fl⦄ ⦃heap = heap⦄ t addrs 1
                  (string service ∷ string host ∷ st) w1)),
          with_addrs-HasAddrs w1 t addrs 1 (omega arith),
        ),
  )

-- ===== src/Lua/Api.antt =====
-- The functions of Lua's C interface that src/script.c calls.
use wrk.Base.{
  ℕ, zero, suc, ◌-◌, Bool, true, false, not, Option, none, some, List, [], ◌∷◌, ltb, if◌then◌else◌,
  length, take, drop, get_elem?, until_nul,
}
use wrk.Lua.{
  Addr, Udata, addr_box, stats_box, thread_box, Value, nil, boolean, number, string, table,
  function, cfunction, userdata, Heap, Raised, not_a_table, bad_argument, bad_key, in_call, ok,
  raised, fault, M, pure, ◌>>=◌,
}

-- A place of the stack: `from_top 1` is -1, `from_base 1` is 1.
pub data Index : Type 0 where
  from_top : ℕ → Index
  from_base : ℕ → Index

module _ {F : Type 0} where
  abbrev pub place : Index → List (Value F) → Option (Value F)
  place (from_top zero) st = none
  place (from_top (suc k)) st = get_elem? st k
  place (from_base zero) st = none
  place (from_base (suc k)) st =
      if ltb k (length st) then get_elem? st (length st - suc k) else none

  -- What `lua_settable` takes for a key, by the test for NaN: neither nil nor NaN.
  abbrev pub is_key : (F → Bool) → Value F → Bool
  is_key is_nan nil = false
  is_key is_nan (number n) = not (is_nan n)
  is_key is_nan _ = true

  abbrev pub pad : ℕ → List (Value F) → List (Value F)
  pad zero vs = []
  pad (suc n) [] = nil ∷ pad n []
  pad (suc n) (v ∷ vs) = v ∷ pad n vs

  -- Results go on the stack in order, so the last one is on top.
  abbrev pub push_all : List (Value F) → List (Value F) → List (Value F)
  push_all [] st = st
  push_all (v ∷ vs) st = push_all vs (v ∷ st)

  -- A stack without its first places.
  abbrev pub without : ℕ → List (Value F) → Option (List (Value F))
  without zero st = some st
  without (suc n) [] = none
  without (suc n) (v ∷ st) = without n st

  abbrev pub is_closure : Value F → Bool
  is_closure (function r) = true
  is_closure (cfunction f) = true
  is_closure _ = false

  abbrev pub as_table : Value F → Option ℕ
  as_table (table t) = some t
  as_table _ = none

  abbrev pub as_string : Value F → Option (List ℕ)
  as_string (string s) = some s
  as_string _ = none

  abbrev pub as_udata : Value F → Option ℕ
  as_udata (userdata r u) = some r
  as_udata _ = none

  abbrev pub as_thread : Value F → Option ℕ
  as_thread (userdata r (thread_box t)) = some t
  as_thread _ = none

  abbrev pub as_stats : Value F → Option ℕ
  as_stats (userdata r (stats_box t)) = some t
  as_stats _ = none

  abbrev pub as_addr : Value F → Option Addr
  as_addr (userdata r (addr_box a)) = some a
  as_addr _ = none

module _ {W F : Type 0} where
  abbrev pub fail : {A : Type 0} → Raised F → M W F A
  fail e s = raised e

  abbrev pub push : Value F → M W F (Unit {0})
  push v s = ok (tt, record s { stack = v ∷ s.stack })

  -- `lua_pop`
  abbrev pub pop : ℕ → M W F (Unit {0})
  pop n s = elim (without n s.stack) [ some st ↦ ok (tt, record s { stack = st }) | none ↦ fault ]

  -- The value at an index, which stays where it is.
  abbrev pub value_at : Index → M W F (Value F)
  value_at i s = elim (place i s.stack) [ none ↦ fault | some v ↦ ok (v, s) ]

  -- The value at the top, taken off.
  abbrev pub take_top : M W F (Value F)
  take_top s = elim s.stack [ [] ↦ fault | v ∷ st ↦ ok (v, record s { stack = st }) ]

  abbrev pub table_at : Index → M W F ℕ
  table_at i s = elim (place i s.stack) [
    | none ↦ fault
    | some v ↦ elim (as_table v) [ some t ↦ ok (t, s) | none ↦ raised (not_a_table v) ]
  ]

  -- For the raw accesses, which do not check that there is a table.
  abbrev pub raw_table_at : Index → M W F ℕ
  raw_table_at i s = elim (place i s.stack) [
    | none ↦ fault
    | some v ↦ elim (as_table v) [ some t ↦ ok (t, s) | none ↦ fault ]
  ]

-- `luaL_checkudata`, for a kind of userdata.
module _ {W F A : Type 0} where
  abbrev pub check_udata : (Value F → Option A) → Index → M W F A
  check_udata kind i = do
    v ← value_at i
    elim (kind v) [ some a ↦ pure a | none ↦ fail (bad_argument v) ]

module _ {W F : Type 0} ⦃heap : Heap W F⦄ where
  abbrev pub getglobal : List ℕ → M W F (Unit {0})
  getglobal name s = push (heap.global s.heap name) s

  abbrev pub setglobal : List ℕ → M W F (Unit {0})
  setglobal name = do v ← take_top; λ s. ok (tt, record s { heap = heap.set_global s.heap name v })

  abbrev pub newtable : M W F (Unit {0})
  newtable s =
      let (t, w) = heap.new_table s.heap in ok (tt, record { stack = table t ∷ s.stack; heap = w })

  abbrev pub getfield : Index → List ℕ → M W F (Unit {0})
  getfield i name = do t ← table_at i; λ s. push (heap.get s.heap t (string name)) s

  abbrev pub store : ℕ → Value F → Value F → M W F (Unit {0})
  store t k v s = ok (tt, record s { heap = heap.put s.heap t k v })

  abbrev pub setfield : Index → List ℕ → M W F (Unit {0})
  setfield i name = do t ← table_at i; v ← take_top; store t (string name) v

  -- `lua_settable`: the value is on top, the key below it.
  abbrev pub settable : Index → M W F (Unit {0})
  settable i = do
    t ← table_at i
    v ← take_top
    k ← take_top
    if is_key heap.is_nan k then store t k v else fail (bad_key k)

  abbrev pub rawseti : Index → F → M W F (Unit {0})
  rawseti i n = do t ← raw_table_at i; v ← take_top; store t (number n) v

  -- `lua_next`: the key is taken off; if there is a pair behind it, that is put on.
  abbrev pub next : Index → M W F Bool
  next i = do
    t ← raw_table_at i
    k ← take_top
    λ s. elim (heap.next_pair s.heap t k) [
      | none ↦ ok (false, s)
      | some (k', v) ↦ ok (true, record s { stack = v ∷ (k' ∷ s.stack) })
    ]

  -- `lua_objlen`
  abbrev pub objlen_at : Index → M W F ℕ
  objlen_at i = do
    v ← value_at i
    λ s. ok (
      elim v [
        | table t ↦ heap.table_size s.heap t
        | string text ↦ length text
        | userdata r u ↦ heap.udata_size u
        | nil ↦ 0
        | boolean b ↦ 0
        | number n ↦ 0
        | function r ↦ 0
        | cfunction f ↦ 0
      ],
      s,
    )

  -- `luaL_newmetatable`
  abbrev pub newmetatable : List ℕ → M W F (Unit {0})
  newmetatable name s = elim (heap.registry s.heap name) [
    | nil ↦
        (let (t, w) = heap.new_table s.heap in
          ok (tt, record { stack = table t ∷ s.stack; heap = heap.set_registry w name (table t) }))
    | boolean b ↦ push (boolean b) s
    | number n ↦ push (number n) s
    | string text ↦ push (string text) s
    | table t ↦ push (table t) s
    | function r ↦ push (function r) s
    | cfunction f ↦ push (cfunction f) s
    | userdata r u ↦ push (userdata r u) s
  ]

  -- `lua_call` with `n` arguments and `r` results; the function is below its arguments.
  abbrev pub call : ℕ → ℕ → M W F (Unit {0})
  call n r s = elim (get_elem? s.stack n) [
    | none ↦ fault
    | some f ↦ elim (heap.call s.heap f (push_all (take n s.stack) [])) [
      | none ↦ raised (in_call f)
      | some (results, w) ↦
          ok (tt, record { stack = push_all (pad r results) (drop (suc n) s.stack); heap = w })
    ]
  ]

  -- `lua_newuserdata`, with what the program then writes into it.
  abbrev pub newuserdata : Udata → M W F (Unit {0})
  newuserdata u s =
      let (r, w) = heap.new_userdata s.heap u in
      ok (tt, record { stack = userdata r u ∷ s.stack; heap = w })

  -- `luaL_getmetatable`
  abbrev pub getmetatable : List ℕ → M W F (Unit {0})
  getmetatable name s = push (heap.registry s.heap name) s

  abbrev pub setmetatable : Index → M W F (Unit {0})
  setmetatable i = do
    r ← check_udata as_udata i
    m ← take_top
    λ s. ok (tt, record s { heap = heap.set_metatable s.heap r m })

abbrev pub text_of : {F : Type 0} → (F → List ℕ) → Value F → Option (List ℕ)
text_of digits (string s) = some s
text_of digits (number n) = some (digits n)
text_of digits _ = none

module _ {W F : Type 0} ⦃heap : Heap W F⦄ where
  -- `lua_tostring`, or NULL. That a number at the index becomes a string is not seen by what comes after.
  abbrev pub tostring : Index → M W F (Option (List ℕ))
  tostring i = do v ← value_at i; pure (text_of heap.number_text v)

  -- `lua_tostring` of a value that C then reads, where NULL is allowed.
  abbrev pub c_text_at : Index → M W F (Option (List ℕ))
  c_text_at i = do t ← tostring i; pure (elim t [ some name ↦ some (until_nul name) | none ↦ none ])

  -- `lua_tostring` of a value that C then reads, which must not be NULL.
  abbrev pub name_at : Index → M W F (List ℕ)
  name_at i = do t ← tostring i; elim t [ some name ↦ pure (until_nul name) | none ↦ λ s. fault ]

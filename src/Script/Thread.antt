-- ===== src/Script/Thread.antt =====
-- The methods and the fields of a thread, as the script sees them: src/script.c.
pub mod Share
pub mod Tables
pub mod Keys
use wrk.Base.{ℕ, Bool, true, Option, none, some, List, ◌==◌, if◌then◌else◌, codes, same_bytes}
use wrk.Lua.{
  Addr, thread_get, thread_set, thread_stop, addr_box, cfunction, Heap, Machine, cannot_set, ok,
  raised, fault, no_fuel, M, Step, pure, ◌>>=◌, ◌>>◌,
}
use wrk.Lua.Api.{
  fail, push, pop, value_at, check_udata, getglobal, setglobal, newuserdata, getmetatable,
  setmetatable, from_top, from_base, as_addr, as_thread, name_at,
}
use wrk.Script.Copy.{Both, on_src, on_dst, script_copy_value}

-- What another state's functions reach of a `thread`: its `L`, its `addr` and the `stop` of its loop.
pub record Peer (W F : Type 0) : Type 0 where
  pub machine : Machine W F
  pub addr : Option Addr
  pub is_stopped : Bool

-- The state that calls, with its frame of the stack, and the threads. A thread's `L` is another state.
pub record Calling (W F : Type 0) : Type 0 where
  pub lua : Machine W F
  pub peers : ℕ → Peer W F

abbrev pub set_peer : {A : Type 0} → (ℕ → A) → ℕ → A → ℕ → A
set_peer peers t p u = if u == t then p else peers u

module _ {W F : Type 0} where
  abbrev pub on_lua : {A : Type 0} → M W F A → Step (Calling W F) F A
  on_lua m s = elim (m s.lua) [
    | ok (a, lua') ↦ ok (a, record s { lua = lua' })
    | raised e ↦ raised e
    | fault ↦ fault
    | no_fuel ↦ no_fuel
  ]

  -- Code on the two states: from the thread's to the caller's, and back.
  abbrev pub from_peer : {A : Type 0} → ℕ → Step (Both W F) F A → Step (Calling W F) F A
  from_peer t m s =
      let p = s.peers t in
      elim (m (record { src = p.machine; dst = s.lua })) [
        | ok (a, b) ↦
            ok
              (a, record { lua = b.dst; peers = set_peer s.peers t (record p { machine = b.src }) })
        | raised e ↦ raised e
        | fault ↦ fault
        | no_fuel ↦ no_fuel
      ]

  abbrev pub to_peer : {A : Type 0} → ℕ → Step (Both W F) F A → Step (Calling W F) F A
  to_peer t m s =
      let p = s.peers t in
      elim (m (record { src = s.lua; dst = p.machine })) [
        | ok (a, b) ↦
            ok
              (a, record { lua = b.src; peers = set_peer s.peers t (record p { machine = b.dst }) })
        | raised e ↦ raised e
        | fault ↦ fault
        | no_fuel ↦ no_fuel
      ]

  unfoldable pub checkthread : M W F ℕ
  checkthread = check_udata as_thread (from_base 1)

  unfoldable pub checkaddr : M W F Addr
  checkaddr = check_udata as_addr (from_top 1)

  -- `aeStop`
  unfoldable pub script_thread_stop : Step (Calling W F) F (Unit {0})
  unfolding checkthread
  script_thread_stop = do
    t ← on_lua checkthread
    λ s. ok (tt, record s { peers = set_peer s.peers t (record (s.peers t) { is_stopped = true }) })

-- The bytes go into memory of the copy's own.
unfoldable pub script_addr_copy : Addr → Addr
script_addr_copy src = record {
  family = src.family;
  socktype = src.socktype;
  protocol = src.protocol;
  bytes = src.bytes;
}

module _ {W F : Type 0} ⦃heap : Heap W F⦄ where
  -- The result is on top of the caller's stack.
  unfoldable pub script_thread_get : ℕ → Step (Calling W F) F (Unit {0})
  unfolding checkthread
  script_thread_get fuel = do
    t ← on_lua checkthread
    key ← on_lua (name_at (from_top 1))
    from_peer t (on_src (getglobal key) >> (script_copy_value fuel 1 >> on_src (pop 1)))

  unfoldable pub script_thread_set : ℕ → Step (Calling W F) F (Unit {0})
  unfolding checkthread
  script_thread_set fuel = do
    t ← on_lua checkthread
    name ← on_lua (name_at (from_top 2))
    to_peer t (script_copy_value fuel 1 >> on_dst (setglobal name))

  unfoldable pub script_addr_clone : Addr → M W F (Unit {0})
  unfolding script_addr_copy
  script_addr_clone addr = do
    newuserdata (addr_box (script_addr_copy addr))
    getmetatable (codes "wrk.addr")
    setmetatable (from_top 2)

  abbrev when : Bool → M W F (Unit {0}) → M W F (Unit {0})
  when b m = if b then m else pure tt

  -- What `script_thread_index` pushes for a key.
  abbrev index_push : Option Addr → List ℕ → M W F (Unit {0})
  index_push addr key = do
    when (same_bytes (codes "get") key) (push (cfunction thread_get))
    when (same_bytes (codes "set") key) (push (cfunction thread_set))
    when (same_bytes (codes "stop") key) (push (cfunction thread_stop))
    when (same_bytes (codes "addr") key)
        (elim addr [ some a ↦ script_addr_clone a | none ↦ λ s. fault ])

  -- The result is on top of the caller's stack.
  unfoldable pub script_thread_index : Step (Calling W F) F (Unit {0})
  unfolding checkthread same_bytes
  script_thread_index = do
    t ← on_lua checkthread
    key ← on_lua (name_at (from_base 2))
    λ s. on_lua (index_push (s.peers t).addr key) s

  unfoldable pub script_thread_newindex : Step (Calling W F) F (Unit {0})
  unfolding checkthread checkaddr script_addr_copy same_bytes
  script_thread_newindex = do
    t ← on_lua checkthread
    key ← on_lua (name_at (from_top 2))
    if same_bytes (codes "addr") key
        then (do
          addr ← on_lua checkaddr
          λ s. ok (
            tt,
            record s {
              peers =
                  set_peer s.peers t (record (s.peers t) { addr = some (script_addr_copy addr) });
            },
          ))
        else (do v ← on_lua (value_at (from_top 1)); on_lua (fail (cannot_set v)))

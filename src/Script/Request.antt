-- ===== src/Script/Request.antt =====
-- The calls into the script before a test and for each request: `script_resolve`, `script_push_thread`,
-- `script_init` and `script_request` of src/script.c.
pub mod Init
use wrk.Base.{
  ℕ, ◌+◌, ◌≡◌, Bool, true, false, Option, none, some, List, [], ◌∷◌, arith, ltb, if◌then◌else◌,
  length, codes,
}
use wrk.Float.{Float}
use wrk.Lua.{
  thread_box, Value, nil, boolean, number, string, table, function, cfunction, userdata, Heap,
  Machine, in_call, Result, ok, raised, M, Step, pure, ◌>>=◌, ◌>>◌,
}
use wrk.Lua.Api.{
  push, pop, value_at, getglobal, newtable, getfield, setfield, rawseti, call, newuserdata,
  getmetatable, setmetatable, tostring, from_top, is_closure, text_of, objlen_at,
}
use wrk.Script.Copy.{Both, on_src, on_dst}

module _ {W F : Type 0} ⦃heap : Heap W F⦄ where
  -- Whether the resolver of the script leaves an address.
  unfoldable pub script_resolve : List ℕ → List ℕ → M W F Bool
  script_resolve host service = do
    getglobal (codes "wrk")
    getfield (from_top 1) (codes "resolve")
    push (string host)
    push (string service)
    call 2 0
    getfield (from_top 1) (codes "addrs")
    count ← objlen_at (from_top 1)
    pop 2
    pure (ltb 0 count)

  unfoldable pub script_push_thread : ℕ → M W F (Unit {0})
  script_push_thread t = do
    newuserdata (thread_box t)
    getmetatable (codes "wrk.thread")
    setmetatable (from_top 2)

module _ {W F : Type 0} ⦃fl : Float F⦄ ⦃heap : Heap W F⦄ where
  -- The loop over the arguments, from an index on.
  unfoldable pub push_args : List (List ℕ) → ℕ → M W F (Unit {0})
  push_args [] i = pure tt
  push_args (arg ∷ args) i = do
    push (string arg)
    rawseti (from_top 2) (fl.of_i64 i)
    push_args args (i + 1)

  -- On the state of the process, `src`, and the one of the thread, `dst`, which the call of `setup` can
  -- reach: `touch` is what it does there.
  unfoldable pub script_init :
      (Machine W F → Machine W F) → ℕ → List (List ℕ) → Step (Both W F) F (Unit {0})
  unfolding script_push_thread push_args
  script_init touch t args = do
    on_dst (getglobal (codes "wrk"))
    on_dst (script_push_thread t)
    on_dst (setfield (from_top 2) (codes "thread"))
    on_src (getglobal (codes "wrk"))
    on_src (getfield (from_top 1) (codes "setup"))
    on_src (script_push_thread t)
    on_src (call 1 0)
    λ s. ok (tt, record s { dst = touch s.dst })
    on_src (pop 1)
    on_dst (getfield (from_top 1) (codes "init"))
    on_dst newtable
    on_dst (push_args args 0)
    on_dst (call 1 0)
    on_dst (pop 1)

  -- The call, with the function on top, the bytes of the result, and a pop; NULL has no bytes.
  unfoldable pub call_request : ℕ → ℕ → M W F (List ℕ)
  call_request conn_id n = do
    push (number (fl.of_i64 conn_id))
    call 1 1
    str ← tostring (from_top 1)
    pop n
    pure (elim str [ some bytes ↦ bytes | none ↦ [] ])

  unfoldable pub script_request : ℕ → M W F (List ℕ)
  unfolding call_request
  script_request conn_id = do
    getglobal (codes "request")
    v ← value_at (from_top 1)
    if is_closure v then call_request conn_id 1 else (do
      getglobal (codes "wrk")
      getfield (from_top 1) (codes "request")
      call_request conn_id 3)

  -- How a call for a request ends, with the stack as it was before: the bytes of the first result.
  abbrev pub requested :
      List (Value F) → Value F → Option (List (Value F) × W) → Result F (List ℕ × Machine W F)
  requested st f none = raised (in_call f)
  requested st f (some ([], w)) = ok ([], record { stack = st; heap = w })
  requested st f (some (v ∷ vs, w)) = ok (
    elim (text_of heap.number_text v) [ some bytes ↦ bytes | none ↦ [] ],
    record { stack = st; heap = w },
  )

  -- The request of a connection is the first result of one call with the connection's number, of the
  -- script's `request` if that is a function, else of the field `request` of the table `wrk`. The
  -- stack is left as it was in either case; a result that is neither a string nor a number gives
  -- no bytes, and an error of the function is passed on.
  pub script_request_lem :
      (conn_id t : ℕ) (st : List (Value F)) (w : W)
      → heap.global w (codes "wrk") ≡ table t
      → let f = heap.global w (codes "request") in
        let f' = heap.get w t (string (codes "request")) in
        let s : Machine W F = record { stack = st; heap = w } in
        let args : List (Value F) = number (fl.of_i64 conn_id) ∷ [] in
        (is_closure f ≡ true → script_request conn_id s ≡ requested st f (heap.call w f args))
        × (is_closure f ≡ false → script_request conn_id s ≡ requested st f' (heap.call w f' args))
  unfolding script_request
  script_request_lem conn_id t st w wrk = ((λ h. ground arith), (λ h. ground arith))

  -- How the call of the resolver ends: whether the field `addrs`, a table, then has an element.
  abbrev pub resolved :
      List (Value F) → ℕ → Value F → Option (List (Value F) × W) → Result F (Bool × Machine W F)
  resolved st t f none = raised (in_call f)
  resolved st t f (some (results, w)) = elim (heap.get w t (string (codes "addrs"))) [
    | table u ↦ ok (ltb 0 (heap.table_size w u), record { stack = st; heap = w })
    | nil ↦ ok (false, record { stack = st; heap = w })
    | boolean b ↦ ok (false, record { stack = st; heap = w })
    | number n ↦ ok (false, record { stack = st; heap = w })
    | string text ↦ ok (ltb 0 (length text), record { stack = st; heap = w })
    | userdata r u ↦ ok (ltb 0 (heap.udata_size u), record { stack = st; heap = w })
    | function r ↦ ok (false, record { stack = st; heap = w })
    | cfunction c ↦ ok (false, record { stack = st; heap = w })
  ]

  -- The resolver of the script is called once with the host and the service; the answer is whether
  -- what `wrk.addrs` then holds has a length above 0, and the stack is left as it was.
  pub script_resolve_lem :
      (host service : List ℕ) (t : ℕ) (st : List (Value F)) (w : W)
      → heap.global w (codes "wrk") ≡ table t
      → let f = heap.get w t (string (codes "resolve")) in
        script_resolve host service (record { stack = st; heap = w })
        ≡ resolved st t f (heap.call w f (string host ∷ string service ∷ []))
  unfolding script_resolve
  script_resolve_lem host service t st w wrk = ground arith

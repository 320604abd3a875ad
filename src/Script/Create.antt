-- ===== src/Script/Create.antt =====
-- `script_create` of src/script.c: a Lua state for the process or for a thread. The state with the libraries
-- and the module `wrk` loaded, the parser of URLs and what a script file does are parameters.
pub mod Headers
pub mod Meta
pub mod Module
use wrk.Base.{
  ℕ, Bool, Option, none, some, List, [], ◌∷◌, ◌++◌, leb, ◌==◌, if◌then◌else◌, length, drop,
  get_elem?, codes,
}
use wrk.Float.{Float}
use wrk.Url.{
  UrlParts, Pushed, lua_nil, lua_string, has_field, push_url_part, uf_schema, uf_host, uf_port,
}
use wrk.Lua.{
  CFunction, addr_tostring, addr_gc, stats_get, stats_len, thread_index, thread_newindex,
  wrk_lookup, wrk_connect, wrk_time_us, Value, string, Heap, ok, fault, M, pure, ◌>>=◌, ◌>>◌,
}
use wrk.Lua.Api.{
  push_all, push, pop, getglobal, getfield, setfield, settable, Index, from_top, from_base,
  newmetatable,
}
use wrk.Script.{FieldValue, no_value, c_function, text, TableField, field_value, set_fields}

-- UF_PATH
abbrev pub uf_path : ℕ
uf_path = 3

-- `char *`, from an offset on; `none` is an access outside an array.
unfoldable pub path_of : List ℕ → UrlParts → Option (List ℕ)
path_of url parts =
    if has_field parts uf_path
    then elim (get_elem? parts.field_data uf_path) [
      | none ↦ none
      | some (off, len) ↦ if leb off (length url) then some (drop off url) else none
    ]
    else some (codes "/")

-- The part before the first colon and the part behind it: `strchr`.
unfoldable pub split_colon : List ℕ → Option (List ℕ × List ℕ)
split_colon [] = none
split_colon (c ∷ cs) =
    let more = split_colon cs in
    if c == b':'
    then some ([], cs)
    else elim more [ none ↦ none | some (before, behind) ↦ some (c ∷ before, behind) ]

-- What is behind a space at the start.
abbrev pub behind_space : List ℕ → Option (List ℕ)
behind_space [] = none
behind_space (c ∷ cs) = if c == b' ' then some cs else none

-- The name and the value of a header; `none` where the loop passes over it.
unfoldable pub header_of : List ℕ → Option (List ℕ × List ℕ)
unfolding split_colon
header_of h = elim (split_colon h) [
  | none ↦ none
  | some (name, rest) ↦ elim (behind_space rest) [ none ↦ none | some value ↦ some (name, value) ]
]

abbrev lib : List (List ℕ × CFunction) → List TableField
lib [] = []
lib ((name, f) ∷ fs) = record { name = name; value = c_function f } ∷ lib fs

abbrev pub addrlib : List TableField
addrlib = lib ((codes "__tostring", addr_tostring) ∷ (codes "__gc", addr_gc) ∷ [])

abbrev pub statslib : List TableField
statslib = lib ((codes "__index", stats_get) ∷ (codes "__len", stats_len) ∷ [])

abbrev pub threadlib : List TableField
threadlib = lib ((codes "__index", thread_index) ∷ (codes "__newindex", thread_newindex) ∷ [])

abbrev pub wrk_fields : List ℕ → List TableField
wrk_fields path =
    lib (
      (codes "lookup", wrk_lookup)
      ∷ (codes "connect", wrk_connect)
      ∷ (codes "time_us", wrk_time_us)
      ∷ [])
    ++ record { name = codes "path"; value = text path } ∷ []

-- What `push_url_part` pushes, as the value of a field.
abbrev pub pushed_value : Pushed → FieldValue
pushed_value lua_nil = no_value
pushed_value (lua_string bytes) = text bytes

module _ {W F : Type 0} ⦃heap : Heap W F⦄ where
  unfoldable pub set_field : Index → List ℕ → M W F (Unit {0})
  set_field i field = setfield i field

  -- The loop over the headers.
  unfoldable pub put_headers : List (List ℕ) → M W F (Unit {0})
  unfolding header_of
  put_headers [] = pure tt
  put_headers (h ∷ headers) = do
    elim (header_of h) [
      | none ↦ pure tt
      | some (name, value) ↦ (do push (string name); push (string value); settable (from_base 5))
    ]
    put_headers headers

module _ {W F : Type 0} where
  -- `luaL_dofile`: `run` gives whether the file ran, and what it leaves, its results or an error, first value first.
  unfoldable pub do_file : (W → Bool × List (Value F) × W) → M W F Bool
  do_file run s =
      let (ran, values, w) = run s.heap in
      ok (ran, record { stack = push_all values s.stack; heap = w })

module _ {W F : Type 0} ⦃fl : Float F⦄ ⦃heap : Heap W F⦄ where
  abbrev pub push_part : Option Pushed → M W F (Unit {0})
  push_part none = λ s. fault
  push_part (some p) = push (field_value (pushed_value p))

  -- `luaL_newmetatable` and `luaL_register`.
  abbrev pub metatable : List ℕ → List TableField → M W F (Unit {0})
  metatable name fields = newmetatable name >> set_fields (from_top 2) fields

  -- On the state with the module `wrk`; `file` is the script if there is one.
  unfoldable pub script_create :
      Option (W → Bool × List (Value F) × W)
      → (List ℕ → UrlParts)
      → List ℕ
      → List (List ℕ)
      → M W F (Unit {0})
  unfolding field_value set_fields set_field push_url_part path_of put_headers do_file
  script_create file parse url headers =
      let parts = parse url in
      do
        metatable (codes "wrk.addr") addrlib
        metatable (codes "wrk.stats") statslib
        metatable (codes "wrk.thread") threadlib
        path ← (λ s. elim (path_of url parts) [ none ↦ fault | some path ↦ ok (path, s) ])
        getglobal (codes "wrk")
        push_part (push_url_part url parts uf_schema)
        set_field (from_base 4) (codes "scheme")
        push_part (push_url_part url parts uf_host)
        set_field (from_base 4) (codes "host")
        push_part (push_url_part url parts uf_port)
        set_field (from_base 4) (codes "port")
        set_fields (from_base 4) (wrk_fields path)
        getfield (from_base 4) (codes "headers")
        put_headers headers
        pop 5
        elim file [ none ↦ pure tt | some run ↦ (do ran ← do_file run; pure tt) ]

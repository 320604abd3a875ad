-- ===== src/Capture.antt =====
-- How a response is collected for the script: `buffer_append`, `buffer_reset`, `buffer_pushlstring`
-- and `script_response` of src/script.c, with the callbacks `header_field`, `header_value` and
-- `response_body` of src/wrk.c.
pub mod Grow
pub mod Events
pub mod Collect
pub mod Parse
pub mod Table
pub mod Deliver
pub mod Tests
use wrk.Base.{
  ℕ, zero, suc, ◌+◌, Bool, true, false, Option, none, some, List, [], ◌∷◌, ◌++◌, ltb, leb, ◌==◌,
  if◌then◌else◌, length, add64, same_bytes,
}

-- `buffer`: `written` are the bytes from `buffer` up to `cursor`, and `length` is the size of the
-- allocation. The pointer is NULL exactly while `length` is 0; `realloc` is taken to succeed.
pub record Buffer : Type 0 where
  pub length : ℕ
  pub written : List ℕ

abbrev pub null_buffer : Buffer
null_buffer = record { length = 0; written = [] }

-- The `while (used + len + 1 >= b->length)` loop, on fuel.
unfoldable pub grow : ℕ → ℕ → ℕ → ℕ
grow zero need size = size
grow (suc fuel) need size =
    let larger = grow fuel need (add64 size 1024) in if leb size need then larger else size

-- `none` is a write of `memcpy` outside the allocation.
unfoldable pub buffer_append : Buffer → List ℕ → Option Buffer
buffer_append b bytes =
    let need = add64 (add64 (length b.written) (length bytes)) 1 in
    let size = grow (suc need) need b.length in
    if leb (length b.written + length bytes) size
    then some (record { length = size; written = b.written ++ bytes })
    else none

unfoldable pub buffer_reset : Buffer → Buffer
buffer_reset b = record b { written = [] }

-- `*b->cursor++ = '\0'`; `none` is a write outside the allocation.
unfoldable pub put_nul : Buffer → Option Buffer
put_nul b =
    if ltb (length b.written) b.length
    then some (record b { written = b.written ++ 0 ∷ [] })
    else none

pub data HeaderState : Type 0 where
  field value : HeaderState

-- The fields `state`, `headers` and `body` of a connection.
pub record Capture : Type 0 where
  pub state : HeaderState
  pub headers : Buffer
  pub body : Buffer

-- A change of state ends the text before it with a NUL.
switch_to : HeaderState → HeaderState → Buffer → Option Buffer
switch_to field value b = put_nul b
switch_to value field b = put_nul b
switch_to field field b = some b
switch_to value value b = some b

append_as : HeaderState → Capture → List ℕ → Option Capture
append_as to c bytes = elim (switch_to c.state to c.headers) [
  | none ↦ none
  | some b ↦ elim (buffer_append b bytes) [
    | none ↦ none
    | some b' ↦ some (record c { state = to; headers = b' })
  ]
]

unfoldable pub header_field : Capture → List ℕ → Option Capture
unfolding append_as switch_to put_nul
header_field c bytes = append_as field c bytes

unfoldable pub header_value : Capture → List ℕ → Option Capture
unfolding append_as switch_to put_nul
header_value c bytes = append_as value c bytes

unfoldable pub response_body : Capture → List ℕ → Option Capture
response_body c bytes = elim (buffer_append c.body bytes) [
  | none ↦ none
  | some b ↦ some (record c { body = b })
]

-- `buffer_pushlstring`: the text up to the next NUL and what stands behind it; `none` if the search
-- leaves the bytes that were written.
unfoldable pub buffer_pushlstring : List ℕ → Option (List ℕ × List ℕ)
buffer_pushlstring [] = none
buffer_pushlstring (b ∷ bytes) =
    let rest = buffer_pushlstring bytes in
    if b == 0
    then some ([], bytes)
    else elim rest [ none ↦ none | some (text, behind) ↦ some (b ∷ text, behind) ]

-- The `for` loop of `script_response`: the names and values that it sets, in order.
unfoldable pub header_pairs : ℕ → List ℕ → Option (List (List ℕ × List ℕ))
header_pairs fuel [] = some []
header_pairs zero (b ∷ bytes) = none
header_pairs (suc fuel) (b ∷ bytes) = elim (buffer_pushlstring (b ∷ bytes)) [
  | none ↦ none
  | some (name, behind) ↦ elim (buffer_pushlstring behind) [
    | none ↦ none
    | some (text, behind') ↦ elim (header_pairs fuel behind') [
      | none ↦ none
      | some pairs ↦ some ((name, text) ∷ pairs)
    ]
  ]
]

-- `lua_rawset` into a table of texts: a name that is there takes the new value.
unfoldable pub rawset : List (List ℕ × List ℕ) → List ℕ → List ℕ → List (List ℕ × List ℕ)
rawset [] name text = (name, text) ∷ []
rawset ((n, t) ∷ rest) name text =
    let others = rawset rest name text in
    if same_bytes n name then (n, text) ∷ rest else (n, t) ∷ others

unfoldable pub rawset_all : List (List ℕ × List ℕ) → List (List ℕ × List ℕ) → List (List ℕ × List ℕ)
rawset_all table [] = table
rawset_all table ((name, text) ∷ pairs) = rawset_all (rawset table name text) pairs

-- The arguments of the script's `response`; `headers` is a table, each name there once.
pub record ScriptCall : Type 0 where
  pub status : ℕ
  pub headers : List (List ℕ × List ℕ)
  pub text : List ℕ
  pub conn_id : ℕ

unfoldable pub script_response : ℕ → Buffer → Buffer → ℕ → Option (ScriptCall × Buffer × Buffer)
script_response status headers body conn_id =
    elim (header_pairs (length headers.written) headers.written) [
      | none ↦ none
      | some pairs ↦ some (
        record {
          status = status;
          headers = rawset_all [] pairs;
          text = body.written;
          conn_id = conn_id;
        },
        buffer_reset headers,
        buffer_reset body,
      )
    ]

-- The block of `response_complete` under `if (c->headers.buffer)`.
unfoldable pub deliver : ℕ → ℕ → Capture → Option (Option ScriptCall × Capture)
unfolding put_nul script_response
deliver status conn_id c =
    if c.headers.length == 0 then some (none, c) else elim (put_nul c.headers) [
      | none ↦ none
      | some headers ↦ elim (script_response status headers c.body conn_id) [
        | none ↦ none
        | some (call, headers', body') ↦
            some (some call, record { state = field; headers = headers'; body = body' })
      ]
    ]

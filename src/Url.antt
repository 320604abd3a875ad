-- ===== src/Url.antt =====
-- The parts of the URL: `script_parse_url` and `push_url_part` of src/script.c, and `copy_url_part` and
-- the choice of the service in `main` of src/wrk.c.
pub mod Parts
use wrk.Base.{
  ℕ, zero, suc, ◌+◌, ◌-◌, ◌*◌, ◌^◌, ◌<◌, ◌≤◌, ◌%◌, ◌/◌, ◌≡◌, ◌≢◌, ◌↔◌, ◌⊎◌, inl, inr, refl, ap, ◌∙◌,
  sym, Bool, true, false, not, Option, none, some, List, [], ◌∷◌, ◌++◌, arith, All, length, sum,
  map, take, drop, get_elem?, sub64, add64, mul64, add32, if◌then◌else◌, leb, ltb, ◌==◌, ◌&&◌, ◌||◌,
  Bool-cases, Option-cases, length-append,
}

-- `http_parser_url`: a set of bits, and an offset and a length for each field.
pub record UrlParts : Type 0 where
  pub field_set : ℕ
  pub field_data : List (ℕ × ℕ)

-- UF_MAX, and UF_SCHEMA, UF_HOST and UF_PORT.
abbrev pub uf_max : ℕ
uf_max = 7

abbrev pub uf_schema : ℕ
uf_schema = 0

abbrev pub uf_host : ℕ
uf_host = 1

abbrev pub uf_port : ℕ
uf_port = 2

-- `parts->field_set & (1 << field)`
abbrev pub has_field : UrlParts → ℕ → Bool
has_field parts field = parts.field_set / 2 ^ field % 2 == 1

-- The bytes from an offset on; `none` is an access outside the text.
unfoldable pub slice : List ℕ → ℕ × ℕ → Option (List ℕ)
slice url (off, len) = if leb (off + len) (length url) then some (take len (drop off url)) else none

-- The bytes of a field; `none` is an access outside an array.
unfoldable pub field_bytes : List ℕ → UrlParts → ℕ → Option (List ℕ)
field_bytes url parts field = elim (get_elem? parts.field_data field) [
  | none ↦ none
  | some place ↦ slice url place
]

-- NULL, or the copy.
unfoldable pub copy_url_part : List ℕ → UrlParts → ℕ → Option (Option (List ℕ))
copy_url_part url parts field =
    if has_field parts field
    then elim (field_bytes url parts field) [ none ↦ none | some bytes ↦ some (some bytes) ]
    else some none

-- What is pushed on the stack of Lua.
pub data Pushed : Type 0 where
  lua_nil : Pushed
  lua_string : List ℕ → Pushed

unfoldable pub push_url_part : List ℕ → UrlParts → ℕ → Option Pushed
push_url_part url parts field =
    if has_field parts field
    then elim (field_bytes url parts field) [ none ↦ none | some bytes ↦ some (lua_string bytes) ]
    else some lua_nil

-- `parse` is `http_parser_parse_url`, with the parts where it succeeds.
unfoldable pub script_parse_url : (List ℕ → Option UrlParts) → List ℕ → Option UrlParts
script_parse_url parse url = elim (parse url) [
  | none ↦ none
  | some parts ↦ if has_field parts uf_schema && has_field parts uf_host then some parts else none
]

-- `!strncmp("https", schema, 5)`
unfoldable pub uses_ssl : List ℕ → Bool
uses_ssl (a ∷ b ∷ c ∷ d ∷ e ∷ rest) = a == b'h' && b == b't' && c == b't' && d == b'p' && e == b's'
uses_ssl _ = false

-- `port ? port : schema`
unfoldable pub service_of : Option (List ℕ) → Option (List ℕ) → Option (List ℕ)
service_of (some port) schema = some port
service_of none schema = schema

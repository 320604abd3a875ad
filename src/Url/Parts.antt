-- ===== src/Url/Parts.antt =====
-- What the parts of an accepted URL are.
use wrk.Base.{
  ℕ, ◌+◌, ◌<◌, ◌≤◌, ◌≡◌, ◌⊎◌, inl, inr, refl, ap, ◌∙◌, true, Option, none, some, List, arith,
  length, take, drop, get_elem?, Bool-cases, Option-cases,
}
use wrk.Url.{
  UrlParts, uf_schema, uf_host, uf_port, uf_max, has_field, slice, field_bytes, copy_url_part,
  lua_nil, lua_string, push_url_part, script_parse_url, service_of,
}

-- The parser says of each field that it found where it lies in the text.
abbrev pub IsInside : List ℕ → UrlParts → Type 0
IsInside url parts =
    (field : ℕ)
    → field < uf_max
    → has_field parts field ≡ true
    → (off len : ℕ) × (get_elem? parts.field_data field ≡ some (off, len))
      × (off + len ≤ length url)

found :
    (url : List ℕ) (parts : UrlParts) (field : ℕ)
    → IsInside url parts
    → field < uf_max
    → has_field parts field ≡ true
    → (bytes : List ℕ) × (field_bytes url parts field ≡ some bytes)
unfolding field_bytes slice
found url parts field inside few h =
    let (off, len, e, l) = inside field few h in (take len (drop off url), ground (arith, e, l))

-- What `main` copies and what the script is given are the same: both are absent, or both have the
-- same bytes, and neither reads outside the text, if the parser says where the fields that it found lie.
pub copy-push :
    (url : List ℕ) (parts : UrlParts) (field : ℕ)
    → IsInside url parts
    → field < uf_max
    → ((copy_url_part url parts field ≡ some none) × (push_url_part url parts field ≡ some lua_nil))
      ⊎ ((bytes : List ℕ) × (copy_url_part url parts field ≡ some (some bytes))
          × (push_url_part url parts field ≡ some (lua_string bytes)))
unfolding copy_url_part push_url_part
copy-push url parts field inside few = elim (Bool-cases (has_field parts field)) [
  | inl y ↦
      let (bytes, e) = found url parts field inside few y in inr (bytes, ground arith, ground arith)
  | inr n ↦ inl (ground arith, ground arith)
]

-- An accepted URL has a scheme, a host and a service: none of the three that `main` uses is NULL, and the
-- service is the port, or the scheme where there is no port, if the parser says where the fields that it
-- found lie.
pub url_parts_lem :
    (parse : List ℕ → Option UrlParts) (url : List ℕ) (parts : UrlParts)
    → script_parse_url parse url ≡ some parts
    → IsInside url parts
    → (parse url ≡ some parts)
      × ((schema host service : List ℕ) × (port : Option (List ℕ)) × (copy_url_part url parts
              uf_schema
            ≡ some (some schema))
          × (copy_url_part url parts uf_host ≡ some (some host))
          × (copy_url_part url parts uf_port ≡ some port)
          × (service_of port (some schema) ≡ some service)
          × ((port ≡ some service) ⊎ ((port ≡ none) × (service ≡ schema))))
unfolding script_parse_url copy_url_part service_of
url_parts_lem parse url parts e inside = elim (Option-cases (parse url)) [
  | inl bad ↦ absurd (ground arith)
  | inr (parts', parsed) ↦
      let has : (has_field parts uf_schema ≡ true)
          × (has_field parts uf_host ≡ true)
          × (parts' ≡ parts) =
        ground arith in
      let (schema, s) = found url parts uf_schema inside (omega arith) has.0 in
      let (host, h) = found url parts uf_host inside (omega arith) has.1 in
      (
        parsed ∙ ap some has.2,
        elim (Bool-cases (has_field parts uf_port)) [
          | inl y ↦
              let (port, p) = found url parts uf_port inside (omega arith) y in
              (
                schema,
                host,
                port,
                some port,
                ground arith,
                ground arith,
                ground arith,
                refl,
                inl refl,
              )
          | inr n ↦ (
            schema,
            host,
            schema,
            none,
            ground arith,
            ground arith,
            ground arith,
            refl,
            inr (refl, refl),
          )
        ],
      )
]

-- ===== src/Main/Setup.antt =====
-- The start of `main` in src/wrk.c, up to the first thread, and `ssl_init` of src/ssl.c. Whether the
-- TLS library can be set up and what the resolver answers are parameters.
use wrk.Base.{
  ℕ, ◌+◌, ◌*◌, ◌^◌, ◌%◌, ◌≡◌, ◌≢◌, ◌⊎◌, inl, inr, refl, ap, ◌∙◌, Bool, true, false, Option, none,
  some, List, arith, if◌then◌else◌, replicate,
}
use wrk.Conn.{Config}
use wrk.Args.{Args, refused, accepted}
use wrk.Url.{
  UrlParts, uf_schema, uf_host, uf_port, copy_url_part, uses_ssl, service_of, script_parse_url,
}
use wrk.Url.Parts.{IsInside, url_parts_lem}

-- `struct timeval` to microseconds: `time_us`.
unfoldable pub time_us : ℕ → ℕ → ℕ
time_us tv_sec tv_usec = (tv_sec * 1000000 + tv_usec) % 2 ^ 64

-- The settings of an `SSL_CTX`.
pub record SslContext : Type 0 where
  pub verifies_peer : Bool
  pub verify_depth : ℕ
  pub retries : Bool
  pub caches_client_sessions : Bool

-- What `ssl_init` leaves: the locks that are made, whether the callbacks are set, and the context.
pub record SslInit : Type 0 where
  pub locks : Option (List Bool)
  pub has_callbacks : Bool
  pub ctx : Option SslContext

-- `num_locks` is `CRYPTO_num_locks()`, `has_memory` is whether `calloc` succeeds, and `makes_context` is
-- whether `SSL_CTX_new` does. A lock is `true` while it is held.
unfoldable pub ssl_init : ℕ → Bool → Bool → SslInit
ssl_init num_locks has_memory makes_context =
    if has_memory
    then record {
      locks = some (replicate num_locks false);
      has_callbacks = true;
      ctx =
          if makes_context
          then some (record {
            verifies_peer = false;
            verify_depth = 0;
            retries = true;
            caches_client_sessions = true;
          })
          else none;
    }
    else record { locks = none; has_callbacks = false; ctx = none }

-- The functions of `sock`.
pub data Transport : Type 0 where
  plain tls : Transport

-- `main` at the call of the resolver.
pub record Setup : Type 0 where
  pub cfg : Config
  pub url : List ℕ
  pub headers : List (List ℕ)
  pub host : List ℕ
  pub service : List ℕ
  pub sock : Transport
  pub ctx : Option SslContext

-- How the start ends; each of the first three is an `exit(1)`.
pub data Start : Type 0 where
  usage no_ssl no_server : Start
  started : Setup → Start

-- The call of the resolver; `resolves` is `script_resolve`.
abbrev pub find_server : (List ℕ → List ℕ → Bool) → Setup → Start
find_server resolves s = if resolves s.host s.service then started s else no_server

-- The choice of the transport.
unfoldable pub start_with :
    Config
    → List ℕ
    → List (List ℕ)
    → SslInit
    → (List ℕ → List ℕ → Bool)
    → List ℕ
    → List ℕ
    → List ℕ
    → Start
start_with cfg url headers ssl resolves schema host service =
    let setup : Setup = record {
      cfg = cfg;
      url = url;
      headers = headers;
      host = host;
      service = service;
      sock = plain;
      ctx = none;
    } in
    if uses_ssl schema
    then elim ssl.ctx [
      | none ↦ no_ssl
      | some ctx ↦ find_server resolves (record setup { sock = tls; ctx = some ctx })
    ]
    else find_server resolves setup

-- `none` is a read outside the text, or a use of NULL.
unfoldable pub start : Args UrlParts → SslInit → (List ℕ → List ℕ → Bool) → Option Start
unfolding start_with
start (refused r) ssl resolves = some usage
start (accepted cfg url parts headers) ssl resolves = elim (copy_url_part url parts uf_schema) [
  | none ↦ none
  | some none ↦ none
  | some (some schema) ↦ elim (copy_url_part url parts uf_host) [
    | none ↦ none
    | some none ↦ none
    | some (some host) ↦ elim (copy_url_part url parts uf_port) [
      | none ↦ none
      | some port ↦ elim (service_of port (some schema)) [
        | none ↦ none
        | some service ↦ some (start_with cfg url headers ssl resolves schema host service)
      ]
    ]
  ]
]

-- A start that got to the first thread: the server was found, and TLS is used, with a context, exactly
-- for a scheme that begins with "https".
abbrev pub IsStarted : Setup → (List ℕ → List ℕ → Bool) → List ℕ → Type 0
IsStarted s resolves schema =
    (resolves s.host s.service ≡ true)
    × ((s.sock ≡ plain) × (s.ctx ≡ none) × (uses_ssl schema ≡ false)
        ⊎ (s.sock ≡ tls) × ((c : SslContext) × (s.ctx ≡ some c)) × (uses_ssl schema ≡ true))

-- What a start says of the scheme, the host and the service.
abbrev pub StartIs : Start → SslInit → (List ℕ → List ℕ → Bool) → List ℕ → List ℕ → List ℕ → Type 0
StartIs usage ssl resolves schema host service = ⊥
StartIs no_ssl ssl resolves schema host service = (uses_ssl schema ≡ true) × (ssl.ctx ≡ none)
StartIs no_server ssl resolves schema host service =
    (resolves host service ≡ false) × ((uses_ssl schema ≡ false) ⊎ (ssl.ctx ≢ none))
StartIs (started s) ssl resolves schema host service =
    (s.host ≡ host) × (s.service ≡ service) × IsStarted s resolves schema

start_with-StartIs :
    (cfg : Config) (url : List ℕ) (headers : List (List ℕ)) (ssl : SslInit)
    (resolves : List ℕ → List ℕ → Bool) (schema host service : List ℕ)
    → StartIs
        (start_with cfg url headers ssl resolves schema host service)
        ssl
        resolves
        schema
        host
        service
unfolding start_with
start_with-StartIs cfg url headers ssl resolves schema host service =
    by_cases (uses_ssl schema) refl ssl.ctx refl (resolves host service) refl
  where
    by_cases :
        (b : Bool)
        → uses_ssl schema ≡ b
        → (ctx : Option SslContext) → ssl.ctx ≡ ctx
        → (r : Bool) → resolves host service ≡ r
        → StartIs
            (start_with cfg url headers ssl resolves schema host service)
            ssl
            resolves
            schema
            host
            service
    by_cases false u ctx c true r = rw (u, r) (refl, refl, (r, inl (refl, refl, u)))
    by_cases false u ctx c false r = rw (u, r) (r, inl u)
    by_cases true u none c r e = rw (u, c) (u, refl)
    by_cases true u (some ctx) c true r = rw (u, c, r) (refl, refl, (r, inr (refl, (ctx, refl), u)))
    by_cases true u (some ctx) c false r = rw (u, c, r) (r, inr (λ n. ground arith))

-- Arguments that are accepted, with an URL whose parser says where the fields that it found lie: the start
-- reads nothing outside the URL and uses no NULL. It ends for want of TLS exactly as `ssl_init` has no context and
-- the scheme begins with "https"; for want of a server if the resolver finds none for the host and
-- the service; else the host, the service and the transport are those of the URL, the
-- service is the port or else the scheme, and TLS is used exactly for the schemes that begin
-- with "https".
pub start_lem :
    (parse : List ℕ → Option UrlParts) (cfg : Config) (url : List ℕ) (parts : UrlParts)
    (headers : List (List ℕ)) (ssl : SslInit) (resolves : List ℕ → List ℕ → Bool)
    → script_parse_url parse url ≡ some parts
    → IsInside url parts
    → (schema host service : List ℕ) × (s : Start) × (copy_url_part url parts uf_schema
        ≡ some (some schema))
      × (copy_url_part url parts uf_host ≡ some (some host))
      × ((copy_url_part url parts uf_port ≡ some (some service))
          ⊎ ((copy_url_part url parts uf_port ≡ some none) × (service ≡ schema)))
      × (start (accepted cfg url parts headers) ssl resolves ≡ some s)
      × StartIs s ssl resolves schema host service
unfolding start
start_lem parse cfg url parts headers ssl resolves parsed inside =
    let (whole, (schema, host, service, port, s, h, p, chosen, which)) =
      url_parts_lem parse url parts parsed inside in
    (
      schema,
      host,
      service,
      start_with cfg url headers ssl resolves schema host service,
      s,
      h,
      elim which [
        | inl is_port ↦ inl (p ∙ ap some is_port)
        | inr (no_port, is_schema) ↦ inr (p ∙ ap some no_port, is_schema)
      ],
      rw (s, h, p, chosen, start),
      start_with-StartIs cfg url headers ssl resolves schema host service,
    )

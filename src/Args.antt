-- ===== src/Args.antt =====
-- `parse_args` of src/wrk.c. `getopt_long` is a library: the options that it finds, in order, are an
-- argument, and so is the text at `optind`, if there is one.
pub mod Accept
pub mod Tests
use wrk.Base.{
  ℕ, Bool, true, false, Option, none, some, List, [], ◌∷◌, ◌++◌, if◌then◌else◌, ◌||◌, ◌==◌, ltb,
  mul64,
}
use wrk.Conn.{Config}
use wrk.Units.{scan_metric, scan_time}

-- An option with its argument; `unknown` are those that the `switch` sends to `default`.
pub data Opt : Type 0 where
  threads_opt : List ℕ → Opt
  connections_opt : List ℕ → Opt
  duration_opt : List ℕ → Opt
  script_opt : List ℕ → Opt
  header_opt : List ℕ → Opt
  latency_opt : Opt
  batch_opt : Opt
  u_latency_opt : Opt
  timeout_opt : List ℕ → Opt
  rate_opt : List ℕ → Opt
  version_opt : Opt
  unknown : Opt

-- What stands behind the configuration while the options are read: the headers so far.
pub record Parsed : Type 0 where
  pub cfg : Config
  pub headers : List (List ℕ)

-- Why the arguments are refused; each of them makes `parse_args` return -1.
pub data Refusal : Type 0 where
  bad_usage bad_url few_connections no_rate : Refusal

pub data Args (Parts : Type 0) : Type 0 where
  accepted : Config → List ℕ → Parts → List (List ℕ) → Args Parts
  refused : Refusal → Args Parts

-- SOCKET_TIMEOUT_MS is 2000.
abbrev pub default_config : Config
default_config = record {
  threads = 2;
  connections = 10;
  duration = 10;
  timeout = 2000;
  pipeline = 0;
  rate = 0;
  delay_ms = 0;
  latency = false;
  u_latency = false;
  dynamic = false;
  record_all_responses = true;
  script = none;
}

-- A scanned number, put where it belongs.
set_scanned : Option ℕ → (ℕ → Config) → Parsed → Option Parsed
set_scanned none put p = none
set_scanned (some n) put p = some (record p { cfg = put n })

-- One turn of the `switch`; `none` is a `return -1`.
unfoldable pub apply_option : Opt → Parsed → Option Parsed
unfolding set_scanned
apply_option (threads_opt s) p = set_scanned (scan_metric s) (λ n. record (p.cfg) { threads = n }) p
apply_option (connections_opt s) p =
    set_scanned (scan_metric s) (λ n. record (p.cfg) { connections = n }) p
apply_option (duration_opt s) p = set_scanned (scan_time s) (λ n. record (p.cfg) { duration = n }) p
apply_option (script_opt s) p = some (record p { cfg = record (p.cfg) { script = some s } })
apply_option (header_opt s) p = some (record p { headers = p.headers ++ s ∷ [] })
apply_option latency_opt p = some (record p { cfg = record (p.cfg) { latency = true } })
apply_option batch_opt p = some (record p { cfg = record (p.cfg) { record_all_responses = false } })
apply_option u_latency_opt p =
    some (record p { cfg = record (p.cfg) { latency = true; u_latency = true } })
apply_option (timeout_opt s) p =
    set_scanned (scan_time s) (λ n. record (p.cfg) { timeout = mul64 n 1000 }) p
apply_option (rate_opt s) p = set_scanned (scan_metric s) (λ n. record (p.cfg) { rate = n }) p
apply_option version_opt p = some p
apply_option unknown p = none

unfoldable pub apply_options : List Opt → Parsed → Option Parsed
apply_options [] p = some p
apply_options (o ∷ os) p = elim (apply_option o p) [ none ↦ none | some p' ↦ apply_options os p' ]

-- `parse_url` is `script_parse_url`, which gives the parts of a URL with a scheme and a host.
module _ {Parts : Type 0} (parse_url : List ℕ → Option Parts) where
  unfoldable pub check_args : Parsed → Option (List ℕ) → Args Parts
  check_args p none = refused bad_usage
  check_args p (some url) =
      let cfg = p.cfg in
      if cfg.threads == 0 || cfg.duration == 0 then refused bad_usage else elim (parse_url url) [
        | none ↦ refused bad_url
        | some parts ↦
            if cfg.connections == 0 || ltb cfg.connections cfg.threads
            then refused few_connections
            else if cfg.rate == 0
            then refused no_rate
            else accepted cfg url parts p.headers
      ]

  unfoldable pub parse_args : List Opt → Option (List ℕ) → Args Parts
  parse_args os url = elim (apply_options os (record { cfg = default_config; headers = [] })) [
    | none ↦ refused bad_usage
    | some p ↦ check_args p url
  ]

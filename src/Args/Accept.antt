-- ===== src/Args/Accept.antt =====
-- Which arguments are accepted.
use wrk.Base.{
  ℕ, ◌≤◌, ◌<◌, ◌≡◌, inl, inr, true, false, Option, none, some, List, [], ◌∷◌, arith, Option-cases,
}
use wrk.Conn.{Config}
use wrk.Args.{
  Opt, threads_opt, Parsed, accepted, default_config, apply_option, apply_options, check_args,
  parse_args,
}

-- A configuration that the rest of the program relies on.
pub record IsUsable (cfg : Config) : Type 0 where
  pub some_threads : 0 < cfg.threads
  pub shared_out : cfg.threads ≤ cfg.connections
  pub some_time : 0 < cfg.duration
  pub some_rate : 0 < cfg.rate

-- What options leave as it was, and what they keep.
record IsParsed (cfg : Config) : Type 0 where
  untouched : (cfg.pipeline ≡ 0) × (cfg.dynamic ≡ false)
  both_printed : cfg.u_latency ≡ true → cfg.latency ≡ true

option-IsParsed :
    (o : Opt) (p : Parsed) {q : Parsed}
    → IsParsed p.cfg
    → apply_option o p ≡ some q
    → IsParsed q.cfg
unfolding apply_option
option-IsParsed (threads_opt s) p v e = ground arith
option-IsParsed _ p v e = ground arith

options-IsParsed :
    (os : List Opt) (p : Parsed) {q : Parsed}
    → IsParsed p.cfg
    → apply_options os p ≡ some q
    → IsParsed q.cfg
unfolding apply_options
options-IsParsed [] p v e = ground arith
options-IsParsed (o ∷ os) p {q} v e = elim (Option-cases (apply_option o p)) [
  | inl stop ↦ absurd (ground arith)
  | inr (p', step) ↦
      options-IsParsed os p' {q = q} (option-IsParsed o p {q = p'} v step) (ground arith)
]

module _ {Parts : Type 0} (parse_url : List ℕ → Option Parts) where
  -- Accepted arguments give a usable configuration: threads, time and a rate, and a connection at
  -- least for each thread; the URL is the one given and its parts are those parsed; the uncorrected
  -- latencies are printed only with the corrected ones.
  pub accepted-IsUsable :
      (os : List Opt) (url : Option (List ℕ)) {cfg : Config} {u : List ℕ} {parts : Parts}
      {headers : List (List ℕ)}
      → parse_args parse_url os url ≡ accepted cfg u parts headers
      → IsUsable cfg
        × (url ≡ some u)
        × (parse_url u ≡ some parts)
        × (cfg.u_latency ≡ true → cfg.latency ≡ true)
        × (apply_options os (record { cfg = default_config; headers = [] })
            ≡ some (record { cfg = cfg; headers = headers }))
  unfolding parse_args check_args
  accepted-IsUsable os none e =
      elim (Option-cases (apply_options os (record { cfg = default_config; headers = [] }))) [
        | inl stop ↦ absurd (ground arith)
        | inr (p, read) ↦ absurd (ground arith)
      ]
  accepted-IsUsable os (some url) {cfg} {u} {parts} {headers} e =
      elim (Option-cases (apply_options os (record { cfg = default_config; headers = [] }))) [
        | inl stop ↦ absurd (ground arith)
        | inr (p, read) ↦
            let v =
              options-IsParsed os (record { cfg = default_config; headers = [] }) {q = p}
                (ground arith) read in
            elim (Option-cases (parse_url url)) [
              | inl bad ↦ absurd (ground arith)
              | inr (found, parsed) ↦ ground arith
            ]
      ]

-- ===== src/Args/Tests.antt =====
-- Runs of the reading of the arguments, and the theorem at concrete ones.
use wrk.Base.{ℕ, ◌≡◌, refl, true, Option, some, List, [], ◌∷◌}
use wrk.Conn.{Config}
use wrk.Units.{scan_metric, sscanf_units, same_text, find_scale}
use wrk.Args.{
  Opt, rate_opt, u_latency_opt, accepted, default_config, set_scanned, apply_option, apply_options,
  check_args, parse_args,
}
use wrk.Args.Accept.{IsUsable, accepted-IsUsable}

-- "2k"
abbrev two_thousand : List ℕ
two_thousand = 50 ∷ 107 ∷ []

abbrev given : List Opt
given = rate_opt two_thousand ∷ u_latency_opt ∷ []

-- Every text is a URL, of one part.
abbrev whole_url : List ℕ → Option (List ℕ)
whole_url = some

abbrev result : Config
result = record default_config { rate = 2000; latency = true; u_latency = true }

accepted_run :
    parse_args whole_url given (some (104 ∷ [])) ≡ accepted result (104 ∷ []) (104 ∷ []) []
unfolding parse_args apply_options check_args apply_option set_scanned scan_metric sscanf_units
    same_text find_scale
accepted_run = refl

accepted-IsUsable_example :
    IsUsable result
    × (◌≡◌ {A = Option (List ℕ)} (some (104 ∷ [])) (some (104 ∷ [])))
    × (whole_url (104 ∷ []) ≡ some (104 ∷ []))
    × (true ≡ true → true ≡ true)
    × (apply_options given (record { cfg = default_config; headers = [] })
        ≡ some (record { cfg = result; headers = [] }))
accepted-IsUsable_example = accepted-IsUsable whole_url given (some (104 ∷ [])) accepted_run

-- ===== src/Units/Tests.antt =====
-- Scans and prints, and the theorems at concrete texts.
use wrk.Base.{◌≡◌, refl, none, some, [], ◌∷◌, arith}
use wrk.Float.Ratio.{ratio, ratio_float}
use wrk.Units.{
  metric_units, scan_units, sscanf_units, scan_metric, scan_time, find_scale, same_text,
  format_time_s,
}
use wrk.Units.Scan.{scan_units_lem}

-- "20k", " 2h", "1 M", "x" and "5w"
scans :
    (scan_metric (b'2' ∷ b'0' ∷ b'k' ∷ []) ≡ some 20000)
    × (scan_time (b' ' ∷ b'2' ∷ b'h' ∷ []) ≡ some 7200)
    × (scan_metric (b'1' ∷ b' ' ∷ b'M' ∷ []) ≡ some 1000000)
    × (scan_metric (b'x' ∷ []) ≡ none)
    × (scan_time (b'5' ∷ b'w' ∷ []) ≡ none)
unfolding scan_metric scan_time scan_units sscanf_units find_scale same_text
scans = (refl, refl, refl, refl, refl)

-- "20K" as a number with a unit
scan_units_lem_example : scan_units metric_units (b'2' ∷ b'0' ∷ b'K' ∷ []) ≡ some 20000
unfolding same_text
scan_units_lem_example =
    scan_units_lem metric_units b'2' (b'0' ∷ []) (b'K' ∷ []) (refl, (refl, tt))
      (refl, (refl, tt), omega arith)

-- Two hours are printed as 120 minutes.
two_hours : (format_time_s (ratio 7200 1)).unit ≡ b'm' ∷ []
unfolding format_time_s
two_hours = refl

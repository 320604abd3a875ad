-- ===== src/Main/Printed.antt =====
-- The report of `main` is printed to its end.
use wrk.Base.{
  ℕ, ◌≤◌, ◌≡◌, refl, ap, ◌∙◌, Bool, Option, some, List, [], ◌∷◌, ◌++◌, arith, length, codes, All,
  length-append,
}
use wrk.Float.{Float}
use wrk.Hdr.{Hdr, HdrReport}
use wrk.Conn.{Config}
use wrk.Units.{Scaled, format_units, format_time_us, format_metric}
use wrk.Print.{◌>>=◌, scaled_text, percentiles}
use wrk.Print.Columns.{FitsLine, print_hdr_latency_lem, print_stats_lem}
use wrk.Main.{
  latency_stats, Section, running_test, stats_header, latency_line, rate_line, recorded_latency,
  uncorrected_latency, requests_line, socket_errors, status_errors, rates, done_call, report,
}
use wrk.Main.Report.{Results, Printer, section_text, print_sections, print_report}

module _ {F : Type 0} ⦃fl : Float F⦄ (fixed : ℕ → F → List ℕ)
    (wide : (x : F) → 2 ≤ length (fixed 2 x)) where
  scaled_fits : (s : Scaled F) → s.precision ≡ 2 → 2 ≤ length (scaled_text fixed s)
  scaled_fits s e =
      let digits : 2 ≤ length (fixed s.precision s.amount) = rw e (wide s.amount) in
      omega (arith, digits, length-append (fixed s.precision s.amount) s.unit)

  time_fits : (x : F) → 2 ≤ length (scaled_text fixed (format_time_us x))
  unfolding format_time_us format_units
  time_fits x = scaled_fits (format_time_us x) (ground arith)

  metric_fits : (x : F) → 2 ≤ length (scaled_text fixed (format_metric x))
  unfolding format_metric format_units
  metric_fits x = scaled_fits (format_metric x) refl

  fit_lines :
      (value : F → F) (ps : List F)
      → All (λ q. length (fixed 3 q) ≤ 7) ps
      → All (λ q. FitsLine fixed q (value q)) ps
  fit_lines value [] h = tt
  fit_lines value (q ∷ qs) (h, hs) = ((h, time_fits (value q)), fit_lines value qs hs)

bind_some : {A B : Type 0} (f : A → Option B) {m : Option A} {a : A} → m ≡ some a → (m >>= f) ≡ f a
bind_some f e = ap (λ m. m >>= f) e

-- The texts one after the other.
abbrev joined : List (List ℕ) → List ℕ
joined [] = []
joined (text ∷ texts) = text ++ joined texts

module _ {H F : Type 0} ⦃fl : Float F⦄ ⦃hdr : Hdr H⦄ ⦃report_hdr : HdrReport H F⦄ (p : Printer H F)
    (cfg : Config) (r : Results H) where
  -- The texts are those of the parts, in their order.
  abbrev AreTexts : List Section → List (List ℕ) → Type 0
  AreTexts [] texts = texts ≡ []
  AreTexts (s ∷ ss) texts =
      (text : List ℕ) × (rest : List (List ℕ)) × (texts ≡ text ∷ rest)
      × (section_text p cfg r s ≡ some text)
      × AreTexts ss rest

module _ {H F : Type 0} ⦃fl : Float F⦄ ⦃hdr : Hdr H⦄ ⦃report_hdr : HdrReport H F⦄ (p : Printer H F)
    (wide : (x : F) → 2 ≤ length (p.fixed 2 x))
    (narrow : All (λ (q : F). length (p.fixed 3 q) ≤ 7) percentiles) (cfg : Config)
    (r : Results H) where
  section_some : (s : Section) → (text : List ℕ) × (section_text p cfg r s ≡ some text)
  unfolding section_text
  section_some running_test = (_, refl)
  section_some stats_header = (_, refl)
  section_some latency_line =
      let line =
        print_stats_lem p.qsort p.fixed (codes "Latency") (latency_stats r.totals) format_time_us
          (omega arith) (time_fits p.fixed wide) in
      let (a, b, c, ca, cb, cc, l, e) = line in (_, bind_some _ e)
  section_some rate_line =
      let line =
        print_stats_lem p.qsort p.fixed (codes "Req/Sec") r.statistics format_metric (omega arith)
          (metric_fits p.fixed wide) in
      let (a, b, c, ca, cb, cc, l, e) = line in (_, bind_some _ e)
  section_some recorded_latency =
      let h = r.totals.latency_histogram in
      let (lines, l, e) = print_hdr_latency_lem p.spectrum p.fixed h (codes "Recorded Latency") (
        fit_lines p.fixed wide (λ q. fl.of_i64 (report_hdr.value_at_percentile h q)) percentiles
          narrow) in
      (_, bind_some _ e)
  section_some uncorrected_latency =
      let h = r.totals.u_latency_histogram in
      let (lines, l, e) =
        print_hdr_latency_lem p.spectrum p.fixed h
          (codes "Uncorrected Latency (measured without taking delayed starts into account)")
          (fit_lines p.fixed wide (λ q. fl.of_i64 (report_hdr.value_at_percentile h q)) percentiles
            narrow) in
      (_, bind_some _ e)
  section_some requests_line = (_, refl)
  section_some socket_errors = (_, refl)
  section_some status_errors = (_, refl)
  section_some rates = (_, refl)
  section_some done_call = (_, refl)

  sections_lem :
      (ss : List Section)
      → (texts : List (List ℕ)) × AreTexts p cfg r ss texts
        × (print_sections p cfg r ss ≡ some (joined texts))
  unfolding print_sections
  sections_lem [] = ([], refl, refl)
  sections_lem (s ∷ ss) =
      let (text, e) = section_some s in
      let (texts, are, e') = sections_lem ss in
      (text ∷ texts, (text, texts, refl, e, are), bind_some _ e ∙ bind_some _ e')

  -- The report is printed to its end, without an access outside a text: it is the texts of its parts
  -- in their order, each of which can be printed. A number is taken to be printed with at least two
  -- bytes where two decimals are asked for, and a percentile of the report with at most seven bytes.
  print_report_lem :
      (has_done : Bool)
      → (texts : List (List ℕ)) × AreTexts p cfg r (report cfg has_done r.totals.errors) texts
        × (print_report p cfg r has_done ≡ some (joined texts))
  unfolding print_report
  print_report_lem has_done = sections_lem (report cfg has_done r.totals.errors)

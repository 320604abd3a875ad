-- ===== src/Main/Report.antt =====
-- What `main` of src/wrk.c prints. The digits that `printf` gives a number, `qsort` and the detailed
-- spectrum of HdrHistogram are parameters.
use wrk.Base.{ℕ, Bool, Option, some, List, [], ◌∷◌, ◌++◌, codes, replicate}
use wrk.Float.{Float}
use wrk.Hdr.{Hdr, HdrReport}
use wrk.Stats.{Stats}
use wrk.Conn.{Config}
use wrk.Units.{format_time_us, format_time_s, format_binary, format_metric}
use wrk.Print.{right, scaled_text, print_stats_header, print_stats, print_hdr_latency, ◌>>=◌}
use wrk.Main.{
  Totals, latency_stats, Section, running_test, stats_header, latency_line, rate_line,
  recorded_latency, uncorrected_latency, requests_line, socket_errors, status_errors, rates,
  done_call, report,
}

-- What the report is about: `url`, `runtime_us`, the sums, and `statistics.requests`.
pub record Results (H : Type 0) : Type 0 where
  pub url : List ℕ
  pub runtime_us : ℕ
  pub totals : Totals H
  pub statistics : Stats H

-- What the libraries print: `%.*Lf`, `%"PRIu64"`, `%d`, `hdr_percentiles_print`; and `qsort`.
pub record Printer (H F : Type 0) : Type 0 where
  pub fixed : ℕ → F → List ℕ
  pub decimal : ℕ → List ℕ
  pub signed : ℕ → List ℕ
  pub spectrum : H → List ℕ
  pub qsort : List ℕ → List ℕ

abbrev newline : List ℕ
newline = 10 ∷ []

abbrev rule : List ℕ
rule = replicate 58 b'-' ++ newline

module _ {H F : Type 0} ⦃fl : Float F⦄ where
  -- `runtime_us / 1000000.0`
  abbrev pub runtime_s : Results H → F
  runtime_s r = fl.fdiv (fl.of_u64 r.runtime_us) (fl.of_u64 1_000_000)

module _ {H F : Type 0} ⦃fl : Float F⦄ ⦃hdr : Hdr H⦄ ⦃report_hdr : HdrReport H F⦄ where
  -- The text of a part; the calls into the script print nothing here.
  unfoldable pub section_text : Printer H F → Config → Results H → Section → Option (List ℕ)
  section_text p cfg r running_test = some (
      codes "Running "
      ++ scaled_text p.fixed (format_time_s (fl.of_u64 cfg.duration))
      ++ codes " test @ "
      ++ r.url
      ++ newline
      ++ codes "  "
      ++ p.decimal cfg.threads
      ++ codes " threads and "
      ++ p.decimal cfg.connections
      ++ codes " connections"
      ++ newline)
  section_text p cfg r stats_header = some print_stats_header
  section_text p cfg r latency_line = do
    (text, s) ←
        print_stats p.qsort p.fixed (codes "Latency") (latency_stats r.totals) format_time_us
    some text
  section_text p cfg r rate_line = do
    (text, s) ← print_stats p.qsort p.fixed (codes "Req/Sec") r.statistics format_metric
    some text
  section_text p cfg r recorded_latency = do
    text ←
        print_hdr_latency p.spectrum p.fixed r.totals.latency_histogram (codes "Recorded Latency")
    some (text ++ rule)
  section_text p cfg r uncorrected_latency = do
    text ←
        print_hdr_latency p.spectrum p.fixed r.totals.u_latency_histogram
          (codes "Uncorrected Latency (measured without taking delayed starts into account)")
    some (newline ++ text ++ rule)
  section_text p cfg r requests_line = some (
      codes "  "
      ++ p.decimal r.totals.complete
      ++ codes " requests in "
      ++ scaled_text p.fixed (format_time_us (fl.of_u64 r.runtime_us))
      ++ codes ", "
      ++ scaled_text p.fixed (format_binary (fl.of_u64 r.totals.bytes))
      ++ codes "B read"
      ++ newline)
  section_text p cfg r socket_errors =
      let e = r.totals.errors in
      some (
        codes "  Socket errors: connect "
        ++ p.signed e.connect
        ++ codes ", read "
        ++ p.signed e.read
        ++ codes ", write "
        ++ p.signed e.write
        ++ codes ", timeout "
        ++ p.signed e.timeout
        ++ newline)
  section_text p cfg r status_errors =
      some (codes "  Non-2xx or 3xx responses: " ++ p.signed r.totals.errors.status ++ newline)
  section_text p cfg r rates =
      let per_s = λ (n : ℕ). fl.fdiv (fl.of_u64 n) (runtime_s r) in
      some (
        codes "Requests/sec: "
        ++ right 9 (p.fixed 2 (per_s r.totals.complete))
        ++ newline
        ++ codes "Transfer/sec: "
        ++ right 10 (scaled_text p.fixed (format_binary (per_s r.totals.bytes)))
        ++ codes "B"
        ++ newline)
  section_text p cfg r done_call = some []

  -- The parts one after the other.
  unfoldable pub print_sections : Printer H F → Config → Results H → List Section → Option (List ℕ)
  print_sections p cfg r [] = some []
  print_sections p cfg r (s ∷ ss) = do
    text ← section_text p cfg r s
    rest ← print_sections p cfg r ss
    some (text ++ rest)

  unfoldable pub print_report : Printer H F → Config → Results H → Bool → Option (List ℕ)
  print_report p cfg r has_done = print_sections p cfg r (report cfg has_done r.totals.errors)

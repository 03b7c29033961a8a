-- ===== src/Bench/Runs.antt =====
-- benchmarks/custom/support/helpers.h and export.h, framework.h and bench_main.cpp: the summary, the
-- exported files, and main. What the listing and the usage text
-- print is not modelled. The labels that setProjectLabels sets are those of the first state.
use rate_throttle.Prelude.{
  ℕ, Bool, true, false, List, [], ◌∷◌, ◌++◌, map, ite, if◌then◌else◌, ◌==◌, Option, none, some,
}
use rate_throttle.Prelude.Int.{pos}
use rate_throttle.Text.{Bytes, codes, bytes_dec, null, to_lower}
use rate_throttle.Text.Decimal.{to_string}
use rate_throttle.Regression.Double.{Double}
use rate_throttle.Regression.Results.{BenchmarkResult}
use rate_throttle.Regression.Table.{pad_cell}
use rate_throttle.Regression.Report.{
  Piece, text, reset, bold, cyan, blue, magenta, newline, glyph, show_ℤ,
}
use rate_throttle.Bench.{
  Bench, Kind, dim_gray, title_case, edge, border, emit, transcribe, duration_bar, ResultTally,
  total,
}
use rate_throttle.Bench.Rows.{Call, print_one_suite}

pub record BenchSuite : Type 0 where
  pub id : Bytes
  pub category : Bytes
  pub name : Bytes
  pub calls : List Call

abbrev share_widths : List ℕ
share_widths = 20 ∷ 26 ∷ []

unfoldable pub lower_case : Bytes → Bytes
lower_case str = map to_lower str

module _ (double : Double) where
  open double use {D, of_ℕ, mul, div, to_int, fixed}

  unfoldable pub share : ℕ → ResultTally → D
  share count t = mul (div (of_ℕ count) (of_ℕ (total t))) (of_ℕ 100)

  -- the lambda `row` of printSummary
  unfoldable pub share_cells : Piece → Bytes → ℕ → ResultTally → List Piece
  share_cells color label count t =
      let count_pct = to_string count ++ codes " (" ++ fixed 1 (share count t) ++ codes "%)" in
      let val =
        b' ' ∷ pad_cell count_pct 12
        ++ b' ' ∷ duration_bar double (to_int (share count t)) (pos 100) in
      edge
      ++ color ∷ text (pad_cell (b' ' ∷ label) 20) ∷ reset ∷ edge
      ++ color ∷ text (pad_cell val 26) ∷ reset ∷ edge
      ++ newline ∷ []

  unfoldable pub share_markdown : Bytes → ℕ → ResultTally → Bytes
  share_markdown label count t =
      codes "| "
      ++ label
      ++ codes " | "
      ++ to_string count
      ++ codes " ("
      ++ show_ℤ (to_int (share count t))
      ++ codes "%) |"
      ++ 0x0A ∷ []

  unfoldable pub summary_pieces : Bench double → List Piece
  unfolding share_cells border
  summary_pieces b =
      let t = b.result_tally in
      newline ∷ border (glyph 0x8C) (glyph 0xAC) (glyph 0x90) share_widths
      ++ edge
      ++ bold ∷ cyan ∷ text (pad_cell (codes " Summary") 20) ∷ reset ∷ edge
      ++ text (pad_cell (b' ' ∷ to_string (total t) ++ codes " comparisons") 26) ∷ edge
      ++ newline ∷ []
      ++ border (glyph 0x9C) (glyph 0xBC) (glyph 0xA4) share_widths
      ++ share_cells blue (b.custom ++ codes " faster") t.custom_wins t
      ++ share_cells magenta (b.standard ++ codes " faster") t.standard_wins t
      ++ share_cells dim_gray (codes "Tie") t.ties t
      ++ border (glyph 0x94) (glyph 0xB4) (glyph 0x98) share_widths
      ++ newline ∷ []

  unfoldable pub summary_markdown : Bench double → Bytes
  unfolding share_markdown
  summary_markdown b =
      let t = b.result_tally in
      0x0A ∷ codes "## Summary"
      ++ 0x0A ∷ 0x0A ∷ codes "| Result | Count |"
      ++ 0x0A ∷ codes "|---|---|"
      ++ 0x0A ∷ []
      ++ share_markdown (b.custom ++ codes " faster") t.custom_wins t
      ++ share_markdown (b.standard ++ codes " faster") t.standard_wins t
      ++ share_markdown (codes "Tie") t.ties t

  -- printSummary
  unfoldable pub summarize : Bench double → Bench double
  unfolding emit transcribe summary_pieces summary_markdown
  summarize b =
      if total b.result_tally == 0
      then b
      else transcribe double (summary_markdown b)
          (emit double Kind.outside false (summary_pieces b) b)

  unfoldable pub result_json : BenchmarkResult D → Bytes
  result_json r =
      codes "  {"
      ++ 0x0A ∷ codes "    \"suite\": \""
      ++ r.suite
      ++ codes "\","
      ++ 0x0A ∷ codes "    \"operation\": \""
      ++ r.operation
      ++ codes "\","
      ++ 0x0A ∷ codes "    \"total_ns\": "
      ++ to_string r.total_ns
      ++ codes ","
      ++ 0x0A ∷ codes "    \"iterations\": "
      ++ to_string r.iterations
      ++ codes ","
      ++ 0x0A ∷ codes "    \"ns_per_op\": "
      ++ fixed 2 r.ns_per_op
      ++ 0x0A ∷ codes "  }"

  unfoldable pub results_json : List (BenchmarkResult D) → Bytes
  results_json [] = []
  results_json (r ∷ rs) =
      result_json r ++ (if null rs then [] else codes ",") ++ 0x0A ∷ results_json rs

  -- What main leaves: the exit status, the state, and the exported files, or none.
  pub record Done : Type 0 where
    pub status : ℕ
    pub bench : Bench double
    pub files : Option (Bytes × Bytes)

  -- printSummary, exportJson and exportMarkdown
  unfoldable pub finish : Bench double → Done
  unfolding summarize results_json
  finish b = record {
    status = 0;
    bench = summarize b;
    files = some (
      codes "[" ++ 0x0A ∷ results_json (summarize b).recorded ++ codes "]" ++ 0x0A ∷ [],
      codes "# " ++ b.custom ++ codes "Benchmark Results" ++ 0x0A ∷ (summarize b).transcript,
    );
  }

  unfoldable pub print_all : List BenchSuite → Bench double → Bench double
  print_all [] b = b
  print_all (s ∷ suites) b = print_all suites (print_one_suite double s.name s.calls b)

  unfoldable pub matches : Bytes → Bytes → Bool
  unfolding lower_case
  matches requested s = ite (bytes_dec (lower_case s) requested) true false

  -- the loop of main, and what follows it
  unfoldable pub bench_scan : Bytes → Bytes → Bool → List BenchSuite → Bench double → Done
  unfolding matches finish emit
  bench_scan requested lowered found [] b = if found then finish b else record {
    status = 1;
    bench =
        emit double Kind.outside false
          (newline ∷ text (codes "Unknown bench suite: " ++ requested) ∷ newline ∷ newline ∷ []) b;
    files = none;
  }
  bench_scan requested lowered found (s ∷ suites) b =
      let ran = print_one_suite double s.name s.calls b in
      let in_category = bench_scan requested lowered true suites ran in
      let skipped = bench_scan requested lowered found suites b in
      if matches lowered s.name
      then finish ran
      else if matches lowered s.id
      then finish ran
      else if matches lowered s.category
      then in_category
      else skipped

  -- main, without argv[0]
  unfoldable pub bench_main : List Bytes → List BenchSuite → Bench double → Done
  unfolding bench_scan finish print_all
  bench_main [] suites b = finish (print_all suites b)
  bench_main (requested ∷ args) suites b =
      let shown : Done = record { status = 0; bench = b; files = none } in
      ite (bytes_dec requested (codes "-h")) shown (
        ite (bytes_dec requested (codes "--help")) shown (
          ite (bytes_dec requested (codes "list")) shown
            (bench_scan requested (lower_case (title_case requested)) false suites b)))

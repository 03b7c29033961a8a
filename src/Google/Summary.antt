-- ===== src/Google/Summary.antt =====
-- regression/google/support/framework.h, printSummary, which counts as the custom tool's does.
use rate_throttle.Prelude.{
  ℕ, suc, ◌+◌, ◌≡◌, refl, List, [], ◌∷◌, ◌++◌, if◌then◌else◌, ◌==◌, arith, map,
}
use rate_throttle.Text.{Bytes, codes}
use rate_throttle.Text.Decimal.{to_string}
use rate_throttle.Regression.Double.{Double}
use rate_throttle.Regression.Report.{
  Piece, RegressionRow, text, reset, gray, blue, magenta, newline, bottom_border, rule, show_ℤ,
}
use rate_throttle.Regression.Report.Rows.{is_noise}
use rate_throttle.Regression.Report.Summary.{
  Tally, label_w, value_w, summary_widths, summary_heading, tally, tally_loop,
}
use rate_throttle.Google.Common.{pad_cell, bar}
use rate_throttle.Google.Table.{GoogleRow, GoogleTool, emit}

module _ (double : Double) where
  open double use {D, of_ℕ, mul, div, lt, to_int, fixed}

  -- the loop of printSummary
  unfoldable pub google_tally_loop : Tally → List (GoogleRow double) → Tally
  unfolding is_noise
  google_tally_loop t [] = t
  google_tally_loop t (row ∷ rows) =
      let t' =
        if is_noise double row.pct
        then record t { tied = suc t.tied }
        else if lt (of_ℕ 0) row.pct
        then record t { faster = suc t.faster }
        else record t { slower = suc t.slower } in
      google_tally_loop t' rows

  unfoldable pub google_tally : List (GoogleRow double) → Tally
  unfolding google_tally_loop
  google_tally rows = google_tally_loop (record { faster = 0; slower = 0; tied = 0 }) rows

  -- the lambda `row` of printSummary
  unfoldable pub google_summary_row : ℕ → Piece → Bytes → ℕ → GoogleTool double → GoogleTool double
  unfolding emit show_ℤ
  google_summary_row total color label n tool =
      let share = mul (div (of_ℕ n) (of_ℕ total)) (of_ℕ 100) in
      let count_pct = to_string n ++ codes " (" ++ fixed 1 share ++ codes "%)" in
      let val = b' ' ∷ pad_cell count_pct 12 ++ b' ' ∷ bar double share (of_ℕ 100) in
      emit double
        (rule
          ++ color ∷ text (pad_cell (b' ' ∷ label) label_w) ∷ reset ∷ rule
          ++ color ∷ text (pad_cell val value_w) ∷ reset ∷ rule
          ++ newline ∷ [])
        (codes "| "
          ++ label
          ++ codes " | "
          ++ to_string n
          ++ codes " ("
          ++ show_ℤ (to_int share)
          ++ codes "%) |"
          ++ 0x0A ∷ [])
        tool

  unfoldable pub print_google_summary : GoogleTool double → GoogleTool double
  unfolding emit google_tally google_summary_row summary_heading
  print_google_summary tool =
      let t = google_tally tool.rows in
      let total = t.faster + t.slower + t.tied in
      if total == 0
      then tool
      else emit double (bottom_border summary_widths ++ newline ∷ []) [] (
          google_summary_row total gray (codes "Tie") t.tied (
            google_summary_row total magenta (tool.baseline_label ++ codes " faster") t.slower (
              google_summary_row total blue (tool.current_label ++ codes " faster") t.faster (
                emit double (summary_heading double total)
                  (0x0A ∷ codes "## Summary"
                    ++ 0x0A ∷ 0x0A ∷ codes "| Result | Count |"
                    ++ 0x0A ∷ codes "|---|---|"
                    ++ 0x0A ∷ [])
                  tool))))

  pub google_summary-rows :
      (tool : GoogleTool double) → (print_google_summary tool).rows ≡ tool.rows
  unfolding print_google_summary emit google_summary_row
  google_summary-rows tool = ground arith

  -- Both tools count alike: a row is read by its change only.
  abbrev pub as_row : GoogleRow double → RegressionRow double
  as_row row = record {
    suite = [];
    operation = row.name;
    iteration = 0;
    baseline_ns = row.baseline_ns;
    current_ns = row.current_ns;
    pct_change = row.pct;
  }

  loop_lem :
      (rows : List (GoogleRow double)) (t : Tally)
      → google_tally_loop t rows ≡ tally_loop double t (map as_row rows)
  unfolding google_tally_loop tally_loop
  loop_lem [] t = refl
  loop_lem (row ∷ rows) t = loop_lem rows _

  -- The google tool's summary counts as the custom tool's does over rows with the same changes.
  pub google_tally-custom :
      (rows : List (GoogleRow double)) → google_tally rows ≡ tally double (map as_row rows)
  unfolding google_tally tally
  google_tally-custom rows = loop_lem rows _

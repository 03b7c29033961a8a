-- ===== src/Regression/Report/Summary.antt =====
-- regression/custom/support/framework.h, printSummary: how many rows are faster, slower and tied.
pub mod Counts
use rate_throttle.Prelude.{
  ℕ, zero, suc, ◌+◌, Bool, true, false, List, [], ◌∷◌, ◌++◌, if◌then◌else◌, ◌==◌,
}
use rate_throttle.Prelude.Int.{pos}
use rate_throttle.Text.{Bytes, codes}
use rate_throttle.Text.Decimal.{to_string}
use rate_throttle.Regression.Double.{Double}
use rate_throttle.Regression.Table.{pad_cell}
use rate_throttle.Regression.Report.{
  Piece, style, text, reset, bold, cyan, gray, blue, magenta, newline, top_border, mid_border,
  bottom_border, rule, bar, show_ℤ, Tool, RegressionRow,
}
use rate_throttle.Regression.Report.Rows.{print, note, is_noise}

pub record Tally : Type 0 where
  pub faster : ℕ
  pub slower : ℕ
  pub tied : ℕ

abbrev pub label_w : ℕ
label_w = 20

abbrev pub value_w : ℕ
value_w = 26

abbrev pub summary_widths : List ℕ
summary_widths = label_w ∷ value_w ∷ []

module _ (double : Double) where
  open double use {D, of_ℕ, mul, div, lt, to_int, fixed}

  -- the loop of printSummary
  unfoldable pub tally_loop : Tally → List (RegressionRow double) → Tally
  unfolding is_noise
  tally_loop t [] = t
  tally_loop t (row ∷ rows) =
      let t' =
        if is_noise double row.pct_change
        then record t { tied = suc t.tied }
        else if lt (of_ℕ 0) row.pct_change
        then record t { faster = suc t.faster }
        else record t { slower = suc t.slower } in
      tally_loop t' rows

  unfoldable pub tally : List (RegressionRow double) → Tally
  unfolding tally_loop
  tally rows = tally_loop (record { faster = 0; slower = 0; tied = 0 }) rows

  -- the lambda `row` of printSummary
  unfoldable pub summary_row : ℕ → Piece → Bytes → ℕ → Tool double → Tool double
  unfolding print note show_ℤ
  summary_row total color label count tool =
      let share = mul (div (of_ℕ count) (of_ℕ total)) (of_ℕ 100) in
      let count_pct = to_string count ++ codes " (" ++ fixed 1 share ++ codes "%)" in
      let val = b' ' ∷ pad_cell count_pct 12 ++ b' ' ∷ bar double share (of_ℕ 100) in
      note double
        (codes "| "
          ++ label
          ++ codes " | "
          ++ to_string count
          ++ codes " ("
          ++ show_ℤ (to_int share)
          ++ codes "%) |"
          ++ 0x0A ∷ [])
        (print double
          (rule
            ++ color ∷ text (pad_cell (b' ' ∷ label) label_w) ∷ reset ∷ rule
            ++ color ∷ text (pad_cell val value_w) ∷ reset ∷ rule
            ++ newline ∷ [])
          tool)

  unfoldable pub summary_heading : ℕ → List Piece
  summary_heading total =
      newline ∷ top_border summary_widths
      ++ rule
      ++ bold ∷ cyan ∷ text (pad_cell (codes " Summary") label_w) ∷ reset ∷ rule
      ++ text (pad_cell (b' ' ∷ to_string total ++ codes " comparisons") value_w) ∷ rule
      ++ newline ∷ mid_border summary_widths

  unfoldable pub print_summary : Tool double → Tool double
  unfolding print note tally summary_row summary_heading
  print_summary tool =
      let t = tally tool.results in
      let total = t.faster + t.slower + t.tied in
      if total == 0
      then tool
      else print double (bottom_border summary_widths ++ newline ∷ []) (
          summary_row total gray (codes "Tie") t.tied (
            summary_row total magenta (tool.baseline_label ++ codes " faster") t.slower (
              summary_row total blue (tool.current_label ++ codes " faster") t.faster (
                note double
                  (0x0A ∷ codes "## Summary"
                    ++ 0x0A ∷ 0x0A ∷ codes "| Result | Count |"
                    ++ 0x0A ∷ codes "|---|---|"
                    ++ 0x0A ∷ [])
                  (print double (summary_heading total) tool)))))

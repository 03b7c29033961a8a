-- ===== src/Regression/Report/Rows.antt =====
-- regression/custom/support/helpers.h and framework.h: the comparison table, row by row.
pub mod Align
pub mod Records
use rate_throttle.Prelude.{
  ℕ, zero, suc, ◌+◌, ◌-◌, Bool, true, false, not, List, [], ◌∷◌, ◌++◌, leb, ltb, ◌==◌,
  if◌then◌else◌, ite, ◌||◌,
}
use rate_throttle.Text.{Bytes, codes, bytes_dec, null}
use rate_throttle.Regression.Double.{Double}
use rate_throttle.Regression.Results.{BenchmarkResult, get_cns}
use rate_throttle.Regression.Table.{pad_cell, truncate_cell}
use rate_throttle.Regression.Report.{
  Piece, style, text, reset, bold, green, red, cyan, gray, blue, magenta, newline, test_w, iter_w,
  val_w, delta_w, dur_w, table_widths, top_border, mid_border, bottom_border, rule, bar,
  format_double, convert_iter, Tool, RegressionRow,
}

-- "Δ", and the arrows "— ", "▲ " and "▼ "
abbrev pub delta_sign : Bytes
delta_sign = 0xCE ∷ 0x94 ∷ []

abbrev pub dash_arrow : Bytes
dash_arrow = 0xE2 ∷ 0x80 ∷ 0x94 ∷ b' ' ∷ []

abbrev pub up_arrow : Bytes
up_arrow = 0xE2 ∷ 0x96 ∷ 0xB2 ∷ b' ' ∷ []

abbrev pub down_arrow : Bytes
down_arrow = 0xE2 ∷ 0x96 ∷ 0xBC ∷ b' ' ∷ []

-- the cells of the header line
unfoldable pub header_line : Bytes → Bytes → Bytes → List Piece
header_line header current_label baseline_label =
    rule
    ++ bold
      ∷ cyan
      ∷ text (pad_cell (b' ' ∷ truncate_cell header (test_w - 1)) test_w)
      ∷ reset
      ∷ rule
    ++ bold ∷ cyan ∷ text (pad_cell (codes " Iteration") iter_w) ∷ reset ∷ rule
    ++ bold ∷ blue ∷ text (pad_cell (b' ' ∷ current_label) val_w) ∷ reset ∷ rule
    ++ bold ∷ magenta ∷ text (pad_cell (b' ' ∷ baseline_label) val_w) ∷ reset ∷ rule
    ++ bold ∷ cyan ∷ text (pad_cell (b' ' ∷ delta_sign) delta_w) ∷ reset ∷ rule
    ++ newline ∷ []

-- the cells of a comparison line
unfoldable pub row_line : Bytes → Bytes → Bytes → Bytes → List Piece → Bytes → List Piece
row_line name iteration current_cell baseline_cell delta_style delta_cell =
    rule
    ++ text (pad_cell (b' ' ∷ truncate_cell name (test_w - 1)) test_w) ∷ rule
    ++ text (pad_cell (b' ' ∷ iteration) iter_w) ∷ rule
    ++ blue ∷ text (pad_cell current_cell val_w) ∷ reset ∷ rule
    ++ magenta ∷ text (pad_cell baseline_cell val_w) ∷ reset ∷ rule
    ++ delta_style
    ++ text (pad_cell delta_cell delta_w) ∷ reset ∷ rule
    ++ newline ∷ []

module _ (double : Double) where
  open double use {D, of_ℕ, sub, mul, div, fabs, max, lt, le, eq, fixed_showpos}

  -- std::cout << and markdown_buffer() +=
  unfoldable pub print : List Piece → Tool double → Tool double
  print ps tool = record tool { out = tool.out ++ ps }

  unfoldable pub note : Bytes → Tool double → Tool double
  note s tool = record tool { markdown = tool.markdown ++ s }

  unfoldable pub draw_group_separator_if_needed : Bytes → Tool double → Tool double
  unfolding print
  draw_group_separator_if_needed name tool =
      let drawn = print (mid_border table_widths) tool in
      let tool' =
        if null tool.last_row_group
        then tool
        else ite (bytes_dec tool.last_row_group name) tool drawn in
      record tool' { last_row_group = name }

  unfoldable pub set_header : Bytes → Tool double → Tool double
  unfolding print note header_line
  set_header header tool =
      note
        (0x0A ∷ codes "## "
          ++ header
          ++ 0x0A ∷ 0x0A ∷ codes "| Test | Iteration | "
          ++ tool.current_label
          ++ codes " | "
          ++ tool.baseline_label
          ++ codes " | "
          ++ delta_sign
          ++ codes " |"
          ++ 0x0A ∷ codes "|---|---|---|---|---|"
          ++ 0x0A ∷ [])
        (print
          (top_border table_widths
            ++ header_line header tool.current_label tool.baseline_label
            ++ mid_border table_widths)
          (record tool { last_row_group = [] }))

  unfoldable pub end_table : Tool double → Tool double
  unfolding print
  end_table tool = print (bottom_border table_widths) tool

  -- the change in percent; a result that the current run lacks is given as 0.0
  unfoldable pub pct_change : D → D → D
  pct_change b c = if eq b (of_ℕ 0) then of_ℕ 0 else mul (div (sub b c) c) (of_ℕ 100)

  -- NOISE_THRESHOLD and SIGNIFICANT_THRESHOLD
  unfoldable pub is_noise : D → Bool
  is_noise pct = lt (fabs pct) (of_ℕ 1)

  unfoldable pub delta_style : D → List Piece
  unfolding is_noise
  delta_style pct =
      let color = if is_noise pct then gray else if lt (of_ℕ 0) pct then green else red in
      if le (of_ℕ 10) (fabs pct) then bold ∷ color ∷ [] else color ∷ []

  unfoldable pub arrow : D → Bytes
  unfolding is_noise
  arrow pct = if is_noise pct then dash_arrow else if lt (of_ℕ 0) pct then up_arrow else down_arrow

  -- a duration with its bar
  unfoldable pub value_cell : D → D → Bytes
  value_cell ns max_ns =
      b' ' ∷ pad_cell (format_double double ns) dur_w ++ b' ' ∷ bar double ns max_ns

  unfoldable pub print_comparison_row :
      Bytes → Bytes → ℕ → Bytes → D → D → Tool double → Tool double
  unfolding draw_group_separator_if_needed print note
  print_comparison_row suite name iter iteration b c tool =
      let pct = pct_change b c in
      let delta = fixed_showpos 1 pct ++ codes "%" in
      let line =
        row_line name iteration (value_cell c (max b c)) (value_cell b (max b c)) (delta_style pct)
          (b' ' ∷ arrow pct ++ delta) in
      let tool' = print line (draw_group_separator_if_needed name tool) in
      let tool'' =
        note
          (codes "| "
            ++ name
            ++ codes " | "
            ++ iteration
            ++ codes " | "
            ++ format_double double c
            ++ codes " | "
            ++ format_double double b
            ++ codes " | "
            ++ delta
            ++ codes " |"
            ++ 0x0A ∷ [])
          tool' in
      record tool'' {
        results =
            tool''.results
            ++ record {
              suite = suite;
              operation = name;
              iteration = iter;
              baseline_ns = b;
              current_ns = c;
              pct_change = pct;
            }
              ∷ [];
      }

  -- the loop of printRegression; a suite that changes closes the table and opens the next
  unfoldable pub regression_loop :
      Bytes
      → List (BenchmarkResult D)
      → List (BenchmarkResult D)
      → Tool double
      → Bytes × Tool double
  regression_loop current_suite [] current tool = (current_suite, tool)
  regression_loop current_suite (entry ∷ baseline) current tool =
      let closed = ite (bytes_dec current_suite (codes " ")) tool (end_table tool) in
      let opened = set_header entry.suite (print (newline ∷ []) closed) in
      let tool' = ite (bytes_dec current_suite entry.suite) tool opened in
      regression_loop entry.suite baseline current (
        print_comparison_row entry.suite entry.operation entry.iterations
          (convert_iter entry.iterations) entry.ns_per_op
          (get_cns (of_ℕ 0) current entry.operation entry.iterations) tool')

  unfoldable pub print_regression :
      List (BenchmarkResult D) → List (BenchmarkResult D) → Tool double → Tool double
  unfolding regression_loop
  print_regression baseline current tool =
      let (current_suite, tool') = regression_loop (codes " ") baseline current tool in
      ite (bytes_dec current_suite (codes " ")) tool' (end_table tool')

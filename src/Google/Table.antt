-- ===== src/Google/Table.antt =====
-- regression/google/support/helpers.h and framework.h: the google tool's comparison table. It has no
-- column for iterations, and its rows are grouped by their base names.
pub mod Align
pub mod Records
use rate_throttle.Prelude.{ℕ, ◌-◌, List, [], ◌∷◌, ◌++◌, ite, if◌then◌else◌}
use rate_throttle.Text.{Bytes, codes, bytes_dec}
use rate_throttle.Regression.Double.{Double}
use rate_throttle.Regression.Report.{
  Piece, text, reset, bold, cyan, blue, magenta, newline, glyph, rule,
}
use rate_throttle.Regression.Report.Rows.{delta_sign, pct_change, delta_style, arrow, value_cell}
use rate_throttle.Google.{GoogleResult, base_name, get_real_time}
use rate_throttle.Google.Common.{pad_cell, truncate_cell, draw_border, format_double}

abbrev pub name_w : ℕ
name_w = 32

abbrev pub val_w : ℕ
val_w = 24

abbrev pub delta_w : ℕ
delta_w = 14

abbrev pub google_widths : List ℕ
google_widths = name_w ∷ val_w ∷ val_w ∷ delta_w ∷ []

abbrev pub google_top : List Piece
google_top = draw_border (glyph 0x8C) (glyph 0xAC) (glyph 0x90) google_widths

abbrev pub google_mid : List Piece
google_mid = draw_border (glyph 0x9C) (glyph 0xBC) (glyph 0xA4) google_widths

abbrev pub google_bottom : List Piece
google_bottom = draw_border (glyph 0x94) (glyph 0xB4) (glyph 0x98) google_widths

unfoldable pub google_header_line : Bytes → Bytes → Bytes → List Piece
google_header_line header current_label baseline_label =
    rule
    ++ bold
      ∷ cyan
      ∷ text (pad_cell (b' ' ∷ truncate_cell header (name_w - 1)) name_w)
      ∷ reset
      ∷ rule
    ++ bold ∷ blue ∷ text (pad_cell (b' ' ∷ current_label) val_w) ∷ reset ∷ rule
    ++ bold ∷ magenta ∷ text (pad_cell (b' ' ∷ baseline_label) val_w) ∷ reset ∷ rule
    ++ bold ∷ cyan ∷ text (pad_cell (b' ' ∷ delta_sign) delta_w) ∷ reset ∷ rule
    ++ newline ∷ []

unfoldable pub google_row_line : Bytes → Bytes → Bytes → List Piece → Bytes → List Piece
google_row_line name current_cell baseline_cell style delta_cell =
    rule
    ++ text (pad_cell (b' ' ∷ truncate_cell name (name_w - 1)) name_w) ∷ rule
    ++ blue ∷ text (pad_cell current_cell val_w) ∷ reset ∷ rule
    ++ magenta ∷ text (pad_cell baseline_cell val_w) ∷ reset ∷ rule
    ++ style
    ++ text (pad_cell delta_cell delta_w) ∷ reset ∷ rule
    ++ newline ∷ []

module _ (double : Double) where
  open double use {D, of_ℕ, max, fixed_showpos}

  pub record GoogleRow : Type 0 where
    pub name : Bytes
    pub baseline_ns : D
    pub current_ns : D
    pub pct : D

  -- the globals, and what has been printed
  pub record GoogleTool : Type 0 where
    pub current_label : Bytes
    pub baseline_label : Bytes
    pub rows : List GoogleRow
    pub markdown : Bytes
    pub out : List Piece

  unfoldable pub emit : List Piece → Bytes → GoogleTool → GoogleTool
  emit ps s tool = record tool { out = tool.out ++ ps; markdown = tool.markdown ++ s }

  unfoldable pub open_group : Bytes → GoogleTool → GoogleTool
  unfolding emit google_header_line
  open_group header tool =
      emit
        (google_top
          ++ google_header_line header tool.current_label tool.baseline_label
          ++ google_mid)
        (0x0A ∷ codes "## "
          ++ header
          ++ 0x0A ∷ 0x0A ∷ codes "| Benchmark | "
          ++ tool.current_label
          ++ codes " | "
          ++ tool.baseline_label
          ++ codes " | "
          ++ delta_sign
          ++ codes " |"
          ++ 0x0A ∷ codes "|---|---|---|---|"
          ++ 0x0A ∷ [])
        tool

  unfoldable pub close_group : GoogleTool → GoogleTool
  unfolding emit
  close_group tool = emit google_bottom [] tool

  unfoldable pub print_google_row : Bytes → D → D → GoogleTool → GoogleTool
  unfolding emit
  print_google_row name b c tool =
      let pct = pct_change double b c in
      let delta = fixed_showpos 1 pct ++ codes "%" in
      let tool' =
        emit
          (google_row_line name (value_cell double c (max b c)) (value_cell double b (max b c))
            (delta_style double pct) (b' ' ∷ arrow double pct ++ delta))
          (codes "| "
            ++ name
            ++ codes " | "
            ++ format_double double c
            ++ codes " | "
            ++ format_double double b
            ++ codes " | "
            ++ delta
            ++ codes " |"
            ++ 0x0A ∷ [])
          tool in
      record tool' {
        rows =
            tool'.rows ++ record { name = name; baseline_ns = b; current_ns = c; pct = pct } ∷ [];
      }

  -- the loop of printRegression; a base name that changes closes the table and opens the next
  unfoldable pub groups_loop :
      Bytes → List (GoogleResult D) → List (GoogleResult D) → GoogleTool → Bytes × GoogleTool
  groups_loop current_group [] current tool = (current_group, tool)
  groups_loop current_group (entry ∷ baseline) current tool =
      let group = base_name entry.name in
      let closed = ite (bytes_dec current_group (codes " ")) tool (close_group tool) in
      let opened = open_group group (emit (newline ∷ []) [] closed) in
      let tool' = ite (bytes_dec current_group group) tool opened in
      groups_loop group baseline current (
        print_google_row entry.name entry.real_time (get_real_time (of_ℕ 0) current entry.name)
          tool')

  unfoldable pub print_google_regression :
      List (GoogleResult D) → List (GoogleResult D) → GoogleTool → GoogleTool
  unfolding groups_loop
  print_google_regression baseline current tool =
      let (current_group, tool') = groups_loop (codes " ") baseline current tool in
      ite (bytes_dec current_group (codes " ")) tool' (close_group tool')

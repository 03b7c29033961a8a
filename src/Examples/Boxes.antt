-- ===== src/Examples/Boxes.antt =====
-- examples/support/framework.h: the widths of the boxes.
use Prim.Native.Nat.{max}
use rate_throttle.Prelude.{ℕ, ◌+◌, ◌-◌, ◌≤◌, ◌≡◌, refl, ◌⊎◌, inl, inr, List, [], ◌∷◌, ◌++◌, arith}
use rate_throttle.Text.{codes}
use rate_throttle.Regression.Table.{is_continuation, display_width, h_line, v_line}
use rate_throttle.Regression.Table.Utf8.{
  display_width-append, display_width-repeat, display_width-spaces,
}
use rate_throttle.Regression.Table.Cells.{display_width-pad_cell}
use rate_throttle.Regression.Report.{columns, glyph, draw_border as report_border}
use rate_throttle.Examples.{ExampleSuite, visual_width}
use rate_throttle.Examples.Printing.{
  box_top, box_bottom, id_prefix, header_width, name_line, category_line, StatRow, label_width,
  value_width, stat_line,
}

widths :
    (display_width v_line ≡ 1)
    × (display_width h_line ≡ 1)
    × (display_width (codes " ") ≡ 1)
    × (display_width (0x0A ∷ []) ≡ 1)
    × (display_width (glyph 0x8C) ≡ 1)
    × (display_width (glyph 0x90) ≡ 1)
    × (display_width (glyph 0x94) ≡ 1)
    × (display_width (glyph 0x98) ≡ 1)
unfolding display_width is_continuation
widths = (refl, refl, refl, refl, refl, refl, refl, refl)

columns-borders :
    (width : ℕ) → (columns (box_top width) ≡ width + 3) × (columns (box_bottom width) ≡ width + 3)
unfolding columns report_border
columns-borders width = (
  grind (arith, widths, display_width-repeat h_line width),
  grind (arith, widths, display_width-repeat h_line width),
)

-- The two lines of an example's header are as wide as its borders.
pub columns-header :
    (suite : ExampleSuite)
    → (columns (box_top (header_width suite)) ≡ header_width suite + 3)
      × (columns (name_line suite) ≡ header_width suite + 3)
      × (columns (category_line suite) ≡ header_width suite + 3)
      × (columns (box_bottom (header_width suite)) ≡ header_width suite + 3)
unfolding name_line category_line header_width columns
columns-header suite =
    let name = suite.name in
    let prefix = id_prefix suite in
    let width = max (visual_width (prefix ++ name)) (visual_width suite.category) + 2 in
    (
      (columns-borders width).0,
      omega (
        arith,
        widths,
        display_width-append prefix name,
        display_width-pad_cell name (width - 2 - visual_width prefix),
      ),
      omega (arith, widths, display_width-pad_cell suite.category (width - 2)),
      (columns-borders width).1,
    )

-- The row is one of the rows.
abbrev pub IsStat : StatRow → List StatRow → Type 0
IsStat r [] = ⊥
IsStat r (q ∷ rs) = (q ≡ r) ⊎ IsStat r rs

widths-le :
    (r : StatRow) (rs : List StatRow)
    → IsStat r rs
    → (visual_width r.label ≤ label_width rs) × (visual_width r.value ≤ value_width rs)
unfolding label_width value_width
widths-le r [] h = absurd h
widths-le r (q ∷ rs) (inl e) = rw (← e) (omega arith, omega arith)
widths-le r (q ∷ rs) (inr h) =
    (omega (arith, (widths-le r rs h).0), omega (arith, (widths-le r rs h).1))

-- Every row of a box with counts is as wide as its borders.
pub columns-stat_line :
    (rows : List StatRow) (r : StatRow)
    → IsStat r rows
    → let width = label_width rows + value_width rows + 3 in
      (columns (box_top width) ≡ width + 3)
      × (columns (stat_line (label_width rows) (value_width rows) r) ≡ width + 3)
      × (columns (box_bottom width) ≡ width + 3)
unfolding stat_line columns
columns-stat_line rows r is_row =
    let width = label_width rows + value_width rows + 3 in
    (
      (columns-borders width).0,
      omega (
        arith,
        widths,
        widths-le r rows is_row,
        display_width-pad_cell r.label (label_width rows),
        display_width-spaces (value_width rows - visual_width r.value),
      ),
      (columns-borders width).1,
    )

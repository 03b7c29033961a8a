-- ===== src/Regression/Report/Rows/Align.antt =====
-- The widths of the lines of the comparison table, and of its borders.
use rate_throttle.Prelude.{
  ℕ, suc, ◌+◌, ◌-◌, ◌≤◌, ◌<◌, ◌≡◌, refl, sym, ◌∙◌, List, [], ◌∷◌, ◌++◌, arith, Bool-cases, inl, inr,
}
use rate_throttle.Prelude.Int.{ℤ, pos, negsuc}
use rate_throttle.Text.{Bytes, codes}
use rate_throttle.Regression.Double.{Double}
use rate_throttle.Regression.Table.{
  is_continuation, display_width, repeat, pad_cell, truncate_cell, light_shade, full_block, v_line,
}
use rate_throttle.Regression.Table.Utf8.{IsText, display_width-append, display_width-repeat}
use rate_throttle.Regression.Table.Cells.{display_width-pad_cell, display_width-truncate_cell}
use rate_throttle.Regression.Report.{
  Piece, columns, draw_border, top_border, mid_border, bottom_border, table_widths, bar, clamp_bar,
  test_w, iter_w, val_w, delta_w, dur_w, format_double, text, reset, rule, newline, bar_w, Tool,
}
use rate_throttle.Regression.Report.Rows.{
  header_line, row_line, delta_style, arrow, value_cell, pct_change, delta_sign,
  print_comparison_row, draw_group_separator_if_needed,
}

pub columns-append : (ps qs : List Piece) → columns (ps ++ qs) ≡ columns ps + columns qs
unfolding columns
columns-append [] qs = omega arith
columns-append (Piece.style s ∷ ps) qs = columns-append ps qs
columns-append (Piece.text s ∷ ps) qs = omega (arith, columns-append ps qs)

-- The three borders of the table are equally wide.
pub columns-borders :
    (columns (top_border table_widths) ≡ 106)
    × (columns (mid_border table_widths) ≡ 106)
    × (columns (bottom_border table_widths) ≡ 106)
unfolding columns draw_border display_width is_continuation repeat
columns-borders = (refl, refl, refl)

-- Content that fits a cell, behind its leading space, fills it exactly.
pub spaced_cell :
    (s : Bytes) (width : ℕ)
    → display_width s < width
    → display_width (pad_cell (b' ' ∷ s) width) ≡ width
unfolding display_width is_continuation
spaced_cell s width h = omega (arith, display_width-pad_cell (b' ' ∷ s) width)

display_width-space : (s : Bytes) → display_width (b' ' ∷ s) ≡ suc (display_width s)
unfolding display_width is_continuation
display_width-space s = refl

pub full_cell :
    (s : Bytes) (width : ℕ) → display_width s ≤ width → display_width (pad_cell s width) ≡ width
full_cell s width h = omega (arith, display_width-pad_cell s width)

named_cell :
    (name : Bytes)
    → IsText name
    → display_width (pad_cell (b' ' ∷ truncate_cell name (test_w - 1)) test_w) ≡ 26
named_cell name h =
    spaced_cell (truncate_cell name 25) 26 (omega (arith, display_width-truncate_cell name 25 h))

pub widths :
    (display_width v_line ≡ 1)
    × (display_width (0x0A ∷ []) ≡ 1)
    × (display_width (codes "Iteration") ≡ 9)
    × (display_width delta_sign ≡ 1)
    × (display_width (codes "%") ≡ 1)
unfolding display_width is_continuation
widths = (refl, refl, refl, refl, refl)

-- The header line is as wide as the borders if the labels fit their cells.
pub columns-header_line :
    (header current_label baseline_label : Bytes)
    → IsText header
    → display_width current_label < val_w
    → display_width baseline_label < val_w
    → columns (header_line header current_label baseline_label) ≡ 106
unfolding header_line columns
columns-header_line header current_label baseline_label h c b = omega (
  arith,
  widths,
  named_cell header h,
  spaced_cell (codes "Iteration") iter_w (omega (arith, widths)),
  spaced_cell current_label val_w c,
  spaced_cell baseline_label val_w b,
  spaced_cell delta_sign delta_w (omega (arith, widths)),
)

columns-row_line :
    (name iteration current_cell baseline_cell : Bytes) (delta : List Piece) (delta_cell : Bytes)
    → IsText name
    → display_width iteration < iter_w
    → display_width current_cell ≤ val_w
    → display_width baseline_cell ≤ val_w
    → columns delta ≡ 0
    → display_width delta_cell ≤ delta_w
    → columns (row_line name iteration current_cell baseline_cell delta delta_cell) ≡ 106
unfolding row_line columns
columns-row_line name iteration current_cell baseline_cell delta delta_cell h i c b d e =
    let cell : List Piece = text (pad_cell delta_cell delta_w) ∷ reset ∷ rule in
    omega (
      arith,
      widths,
      named_cell name h,
      spaced_cell iteration iter_w i,
      full_cell current_cell val_w c,
      full_cell baseline_cell val_w b,
      full_cell delta_cell delta_w e,
      columns-append (delta ++ cell) (newline ∷ []),
      columns-append delta cell,
      d,
    )

shades : (display_width light_shade ≡ 1) × (display_width full_block ≡ 1)
unfolding display_width is_continuation
shades = (refl, refl)

filled_bar :
    (n : ℕ) → n ≤ 10 → display_width (repeat full_block n ++ repeat light_shade (10 - n)) ≡ 10
filled_bar n h = omega (
  arith,
  display_width-append (repeat full_block n) (repeat light_shade (10 - n)),
  grounded n full_block shades.1,
  grounded (10 - n) light_shade shades.0,
)
  where
    grounded :
        (m : ℕ) (token : Bytes) → display_width token ≡ 1 → display_width (repeat token m) ≡ m
    grounded m token e = rw (display_width-repeat, e) (omega arith)

module _ (double : Double) where
  open double use {D, of_ℕ, max as max_D, fixed_showpos, le, mul, div, lround}

  clamp_bar-le : (x : ℤ) → clamp_bar x ≤ 10
  unfolding clamp_bar
  clamp_bar-le (pos n) = omega arith
  clamp_bar-le (negsuc n) = omega arith

  -- A bar has ten columns, whatever the two doubles are.
  pub display_width-bar : (ns max_ns : D) → display_width (bar double ns max_ns) ≡ 10
  unfolding bar
  display_width-bar ns max_ns =
      let filled = clamp_bar (lround (mul (div ns max_ns) (of_ℕ bar_w))) in
      elim (Bool-cases (le max_ns (of_ℕ 0))) [
        | inl empty ↦ rw empty (omega (arith, display_width-repeat light_shade 10, shades))
        | inr positive ↦
            rw positive
              (filled_bar filled (clamp_bar-le (lround (mul (div ns max_ns) (of_ℕ bar_w)))))
      ]

  pub columns-delta_style : (pct : D) → columns (delta_style double pct) ≡ 0
  unfolding delta_style columns
  columns-delta_style pct = ground arith

  display_width-arrow : (pct : D) → display_width (arrow double pct) ≡ 2
  unfolding arrow display_width is_continuation
  display_width-arrow pct = ground arith

  pub display_width-value_cell :
      (ns max_ns : D)
      → display_width (format_double double ns) ≤ dur_w + 2
      → display_width (value_cell double ns max_ns) ≤ val_w
  unfolding value_cell
  display_width-value_cell ns max_ns h =
      let padded = pad_cell (format_double double ns) dur_w in
      let drawn = bar double ns max_ns in
      omega (
        arith,
        display_width-space (padded ++ b' ' ∷ drawn),
        display_width-append padded (b' ' ∷ drawn),
        display_width-space drawn,
        display_width-pad_cell (format_double double ns) dur_w,
        display_width-bar ns max_ns,
      )

  pub delta_cell_fits :
      (pct : D)
      → display_width (fixed_showpos 1 pct) ≤ 10
      → display_width (b' ' ∷ arrow double pct ++ (fixed_showpos 1 pct ++ codes "%")) ≤ delta_w
  delta_cell_fits pct h = omega (
    arith,
    display_width-space (arrow double pct ++ (fixed_showpos 1 pct ++ codes "%")),
    display_width-append (arrow double pct) (fixed_showpos 1 pct ++ codes "%"),
    display_width-append (fixed_showpos 1 pct) (codes "%"),
    display_width-arrow pct,
    widths,
  )

  columns-comparison_line :
      (name iteration : Bytes) (b c : D)
      → IsText name
      → display_width iteration < iter_w
      → display_width (format_double double c) ≤ dur_w + 2
      → display_width (format_double double b) ≤ dur_w + 2
      → display_width (fixed_showpos 1 (pct_change double b c)) ≤ 10
      → columns (
          row_line name iteration
            (value_cell double c (max_D b c))
            (value_cell double b (max_D b c))
            (delta_style double (pct_change double b c))
            (b' ' ∷ arrow double (pct_change double b c)
              ++ (fixed_showpos 1 (pct_change double b c) ++ codes "%")))
        ≡ 106
  columns-comparison_line name iteration b c h i cw bw dw =
      let pct = pct_change double b c in
      columns-row_line name iteration (value_cell double c (max_D b c))
        (value_cell double b (max_D b c)) (delta_style double pct)
        (b' ' ∷ arrow double pct ++ (fixed_showpos 1 pct ++ codes "%")) h i
        (display_width-value_cell c (max_D b c) cw) (display_width-value_cell b (max_D b c) bw)
        (columns-delta_style pct) (delta_cell_fits pct dw)

  -- If the name is well-formed UTF-8, the iteration has fewer columns than its cell, the two durations
  -- have at most two columns more than is reserved for them, and the printed change at most ten, then
  -- a comparison row prints, behind the separator that it may need, a line that is as wide as each of
  -- the three borders of the table.
  pub columns-print_comparison_row :
      (suite name : Bytes) (iter : ℕ) (iteration : Bytes) (b c : D) (tool : Tool double)
      → IsText name
      → display_width iteration < iter_w
      → display_width (format_double double c) ≤ dur_w + 2
      → display_width (format_double double b) ≤ dur_w + 2
      → display_width (fixed_showpos 1 (pct_change double b c)) ≤ 10
      → (line : List Piece) × ((print_comparison_row double suite name iter iteration b c tool).out
          ≡ (draw_group_separator_if_needed double name tool).out ++ line)
        × (columns line ≡ columns (top_border table_widths))
        × (columns line ≡ columns (mid_border table_widths))
        × (columns line ≡ columns (bottom_border table_widths))
  unfolding print_comparison_row
  columns-print_comparison_row suite name iter iteration b c tool h i cw bw dw =
      let width = columns-comparison_line name iteration b c h i cw bw dw in
      let (top, mid, bottom) = columns-borders in
      (_, refl, width ∙ sym top, width ∙ sym mid, width ∙ sym bottom)

-- ===== src/Google/Table/Align.antt =====
-- The widths of the lines of the google tool's table.
use rate_throttle.Prelude.{◌+◌, ◌-◌, ◌≤◌, ◌<◌, ◌≡◌, refl, List, [], ◌∷◌, ◌++◌, arith}
use rate_throttle.Text.{Bytes, codes}
use rate_throttle.Regression.Double.{Double}
use rate_throttle.Regression.Table.{
  is_continuation, display_width as custom_width, repeat as custom_repeat,
}
use rate_throttle.Regression.Report.{draw_border as custom_border}
use rate_throttle.Regression.Table.Utf8.{IsText}
use rate_throttle.Regression.Table.Cells.{display_width-truncate_cell}
use rate_throttle.Regression.Report.{Piece, columns, dur_w, text, reset, rule, newline}
use rate_throttle.Regression.Report.Rows.{delta_style, arrow, value_cell, pct_change, delta_sign}
use rate_throttle.Regression.Report.Rows.Align.{
  columns-append, widths, spaced_cell, full_cell, columns-delta_style, display_width-value_cell,
  delta_cell_fits,
}
use rate_throttle.Google.Common.{display_width, pad_cell, truncate_cell, format_double}
use rate_throttle.Google.Table.{
  google_top, google_mid, google_bottom, google_header_line, google_row_line, name_w, val_w,
  delta_w,
}

named_cell :
    (name : Bytes)
    → IsText name
    → display_width (pad_cell (b' ' ∷ truncate_cell name (name_w - 1)) name_w) ≡ 32
named_cell name h =
    spaced_cell (truncate_cell name 31) 32 (omega (arith, display_width-truncate_cell name 31 h))

header_lem :
    (header current_label baseline_label : Bytes)
    → IsText header
    → display_width current_label < val_w
    → display_width baseline_label < val_w
    → columns (google_header_line header current_label baseline_label) ≡ 100
unfolding google_header_line columns
header_lem header current_label baseline_label h c b = omega (
  arith,
  widths,
  named_cell header h,
  spaced_cell current_label val_w c,
  spaced_cell baseline_label val_w b,
  spaced_cell delta_sign delta_w (omega (arith, widths)),
)

borders_lem :
    (columns google_top ≡ 100) × (columns google_mid ≡ 100) × (columns google_bottom ≡ 100)
unfolding columns custom_border custom_width is_continuation custom_repeat
borders_lem = (refl, refl, refl)

-- The three borders are equally wide, and so is the header line if the header is well-formed UTF-8 and
-- the labels fit their cells.
pub columns-google_header :
    (header current_label baseline_label : Bytes)
    → IsText header
    → display_width current_label < val_w
    → display_width baseline_label < val_w
    → (columns google_top ≡ 100)
      × (columns google_mid ≡ 100)
      × (columns google_bottom ≡ 100)
      × (columns (google_header_line header current_label baseline_label) ≡ 100)
columns-google_header header current_label baseline_label h c b =
    let (t, m, bottom) = borders_lem in
    (t, m, bottom, header_lem header current_label baseline_label h c b)

columns-row :
    (name current_cell baseline_cell : Bytes) (delta : List Piece) (delta_cell : Bytes)
    → IsText name
    → display_width current_cell ≤ val_w
    → display_width baseline_cell ≤ val_w
    → columns delta ≡ 0
    → display_width delta_cell ≤ delta_w
    → columns (google_row_line name current_cell baseline_cell delta delta_cell) ≡ 100
unfolding google_row_line columns
columns-row name current_cell baseline_cell delta delta_cell h c b d e =
    let cell : List Piece = text (pad_cell delta_cell delta_w) ∷ reset ∷ rule in
    omega (
      arith,
      widths,
      named_cell name h,
      full_cell current_cell val_w c,
      full_cell baseline_cell val_w b,
      full_cell delta_cell delta_w e,
      columns-append (delta ++ cell) (newline ∷ []),
      columns-append delta cell,
      d,
    )

module _ (double : Double) where
  open double use {D, max as max_D, fixed_showpos}

  -- A comparison line of the google tool is 100 columns wide, as the borders are, if the name is
  -- well-formed UTF-8, the two durations have at most two columns more than is reserved for them, and
  -- the printed change at most ten.
  pub columns-google_line :
      (name : Bytes) (b c : D)
      → IsText name
      → display_width (format_double double c) ≤ dur_w + 2
      → display_width (format_double double b) ≤ dur_w + 2
      → display_width (fixed_showpos 1 (pct_change double b c)) ≤ 10
      → columns (
          google_row_line name
            (value_cell double c (max_D b c))
            (value_cell double b (max_D b c))
            (delta_style double (pct_change double b c))
            (b' ' ∷ arrow double (pct_change double b c)
              ++ (fixed_showpos 1 (pct_change double b c) ++ codes "%")))
        ≡ 100
  columns-google_line name b c h cw bw dw =
      let pct = pct_change double b c in
      columns-row name (value_cell double c (max_D b c)) (value_cell double b (max_D b c))
        (delta_style double pct) (b' ' ∷ arrow double pct ++ (fixed_showpos 1 pct ++ codes "%")) h
        (display_width-value_cell double c (max_D b c) cw)
        (display_width-value_cell double b (max_D b c) bw) (columns-delta_style double pct)
        (delta_cell_fits double pct dw)

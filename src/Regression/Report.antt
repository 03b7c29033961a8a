-- ===== src/Regression/Report.antt =====
-- regression/custom/support/helpers.h, the printing half. The globals are the fields of `Tool`, and
-- what goes to std::cout is a list of pieces: an escape sequence, which takes no column, or a text.
pub mod Rows
pub mod Summary
use rate_throttle.Prelude.{
  ℕ, zero, suc, ◌+◌, ◌-◌, Bool, true, false, not, List, [], ◌∷◌, ◌++◌, leb, ltb, ◌==◌,
  if◌then◌else◌, ite, ◌&&◌,
}
use Prim.Native.Nat.{min}
use rate_throttle.Prelude.Int.{ℤ, pos, negsuc, ltb_ℤ}
use rate_throttle.Text.{Bytes, codes, bytes_dec, null}
use rate_throttle.Text.Decimal.{to_string}
use rate_throttle.Regression.Double.{Double}
use rate_throttle.Regression.Table.{
  h_line, v_line, light_shade, full_block, display_width, repeat, pad_cell, truncate_cell,
}

pub data Piece : Type 0 where
  style : Bytes → Piece
  text : Bytes → Piece

-- the terminal columns of what is printed
unfoldable pub columns : List Piece → ℕ
columns [] = 0
columns (style s ∷ ps) = columns ps
columns (text s ∷ ps) = display_width s + columns ps

-- "\033[" and a code
abbrev pub escape : Bytes → Piece
escape s = style (0x1B ∷ b'[' ∷ s)

abbrev pub reset : Piece
reset = escape (codes "0m")

abbrev pub bold : Piece
bold = escape (codes "1m")

abbrev pub green : Piece
green = escape (codes "92m")

abbrev pub red : Piece
red = escape (codes "91m")

abbrev pub cyan : Piece
cyan = escape (codes "96m")

abbrev pub gray : Piece
gray = escape (codes "37m")

abbrev pub blue : Piece
blue = escape (codes "94m")

abbrev pub magenta : Piece
magenta = escape (codes "95m")

abbrev pub test_w : ℕ
test_w = 26

abbrev pub iter_w : ℕ
iter_w = 11

abbrev pub val_w : ℕ
val_w = 24

abbrev pub delta_w : ℕ
delta_w = 14

abbrev pub bar_w : ℕ
bar_w = 10

abbrev pub dur_w : ℕ
dur_w = 10

abbrev pub newline : Piece
newline = text (0x0A ∷ [])

abbrev pub glyph : ℕ → Bytes
glyph c = 0xE2 ∷ 0x94 ∷ c ∷ []

abbrev pub table_widths : List ℕ
table_widths = test_w ∷ iter_w ∷ val_w ∷ val_w ∷ delta_w ∷ []

-- the loop of drawBorder; the first width has no joint before it
unfoldable pub border_cells : Bool → Bytes → List ℕ → List Piece
border_cells first mid [] = []
border_cells first mid (w ∷ ws) =
    let rest = text (repeat h_line w) ∷ border_cells false mid ws in
    if first then rest else text mid ∷ rest

unfoldable pub draw_border : Bytes → Bytes → Bytes → List ℕ → List Piece
unfolding border_cells
draw_border left mid right widths =
    gray ∷ text left ∷ border_cells true mid widths ++ text right ∷ reset ∷ newline ∷ []

-- "┌┬┐", "├┼┤" and "└┴┘"
abbrev pub top_border : List ℕ → List Piece
top_border = draw_border (glyph 0x8C) (glyph 0xAC) (glyph 0x90)

abbrev pub mid_border : List ℕ → List Piece
mid_border = draw_border (glyph 0x9C) (glyph 0xBC) (glyph 0xA4)

abbrev pub bottom_border : List ℕ → List Piece
bottom_border = draw_border (glyph 0x94) (glyph 0xB4) (glyph 0x98)

-- GRAY << V << RESET
abbrev pub rule : List Piece
rule = gray ∷ text v_line ∷ reset ∷ []

-- std::clamp(filled, 0, BAR_W)
unfoldable pub clamp_bar : ℤ → ℕ
clamp_bar (pos n) = min n bar_w
clamp_bar (negsuc n) = 0

-- a signed number in decimal
unfoldable pub show_ℤ : ℤ → Bytes
show_ℤ (pos n) = to_string n
show_ℤ (negsuc n) = b'-' ∷ to_string (suc n)

unfoldable pub convert_iter : ℕ → Bytes
convert_iter iter =
    if iter == 10_000 then codes "10K" else if iter == 100_000 then codes "100K" else codes "1M"

module _ (double : Double) where
  open double use {
    D, of_ℕ, quotient, sub, mul, div, fabs, max, lt, le, eq, lround, round, pow10, log10_floor,
    fixed, fixed_showpos,
  }

  unfoldable pub bar : D → D → Bytes
  unfolding clamp_bar
  bar ns max_ns =
      if le max_ns (of_ℕ 0)
      then repeat light_shade bar_w
      else (let filled = clamp_bar (lround (mul (div ns max_ns) (of_ℕ bar_w))) in
          repeat full_block filled ++ repeat light_shade (bar_w - filled))

  unfoldable pub format_magnitude : D → Bytes
  format_magnitude value =
      let av = fabs value in
      let digits = if lt av (of_ℕ 1) then 1 else log10_floor av + 1 in
      let factor = pow10 (digits - 5) in
      if leb 5 digits
      then fixed 0 (mul (round (div value factor)) factor)
      else fixed (min 2 (5 - digits)) value

  unfoldable pub format_duration : ℤ → Bytes
  format_duration ns =
      if ltb_ℤ ns (pos 1_000)
      then show_ℤ ns ++ codes " ns"
      else if ltb_ℤ ns (pos 1_000_000)
      then format_magnitude (quotient ns 1_000) ++ codes " us"
      else if ltb_ℤ ns (pos 1_000_000_000)
      then format_magnitude (quotient ns 1_000_000) ++ codes " ms"
      else format_magnitude (quotient ns 1_000_000_000) ++ codes " s"

  -- the overload for doubles
  unfoldable pub format_double : D → Bytes
  format_double ns = format_duration (lround ns)

  pub record RegressionRow : Type 0 where
    pub suite : Bytes
    pub operation : Bytes
    pub iteration : ℕ
    pub baseline_ns : D
    pub current_ns : D
    pub pct_change : D

  -- the globals, and what has been printed
  pub record Tool : Type 0 where
    pub current_label : Bytes
    pub baseline_label : Bytes
    pub last_row_group : Bytes
    pub results : List RegressionRow
    pub markdown : Bytes
    pub out : List Piece

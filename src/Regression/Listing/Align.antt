-- ===== src/Regression/Listing/Align.antt =====
-- The widths of the boxes of the listings, and of the ids.
use Prim.Native.Nat.{max}
use mathlib.Core.Path.{subst}
use rate_throttle.Prelude.{
  ℕ, zero, suc, ◌+◌, ◌-◌, ◌≤◌, ◌<◌, ◌≡◌, refl, [], ◌∷◌, ◌++◌, arith, length, replicate, true, false,
}
use rate_throttle.Text.{Bytes, codes, is_digit}
use rate_throttle.Text.Decimal.{to_string, AllDigits, to_string-AllDigits}
use rate_throttle.Text.Decimal.Length.{length-to_string-le}
use rate_throttle.Regression.MethodIds.{method_id}
use rate_throttle.Regression.Table.{is_continuation, display_width, h_line, v_line}
use rate_throttle.Regression.Table.Utf8.{
  display_width-append, display_width-repeat, display_width-spaces,
}
use rate_throttle.Regression.Report.{columns, glyph, newline}
use rate_throttle.Regression.Listing.{set_w, box_border, box_row, version_box, count_box, count_row}

glyphs :
    (display_width h_line ≡ 1)
    × (display_width v_line ≡ 1)
    × (display_width (v_line ++ b' ' ∷ []) ≡ 2)
    × (display_width (b' ' ∷ v_line) ≡ 2)
    × (display_width (0x0A ∷ []) ≡ 1)
    × (display_width (glyph 0x8C) ≡ 1)
    × (display_width (glyph 0x90) ≡ 1)
    × (display_width (glyph 0x94) ≡ 1)
    × (display_width (glyph 0x98) ≡ 1)
    × (display_width (codes "Version: ") ≡ 9)
    × (display_width (set_w 13 (codes "Version")) ≡ 13)
    × (display_width (set_w 13 (codes "Methods")) ≡ 13)
unfolding display_width is_continuation set_w
glyphs = (refl, refl, refl, refl, refl, refl, refl, refl, refl, refl, refl, refl)

columns-box_border :
    (left right : Bytes) (width : ℕ)
    → display_width left ≡ 1
    → display_width right ≡ 1
    → columns (box_border left right width) ≡ width + 5
unfolding box_border columns
columns-box_border left right width l r =
    grind (arith, l, r, glyphs, display_width-repeat h_line (width + 2))

columns-box_row :
    (width : ℕ) (label value : Bytes) (plain_len : ℕ)
    → display_width (set_w 13 label) ≡ 13
    → plain_len ≡ display_width (set_w 13 label ++ value)
    → plain_len ≤ width
    → columns (box_row width label value plain_len) ≡ width + 5
unfolding box_row columns
columns-box_row width label value plain_len l p le = omega (
  arith,
  l,
  glyphs,
  display_width-append (set_w 13 label) value,
  display_width-spaces (width - plain_len),
)

-- The four lines of the box above a baseline's tree are equally wide, whatever its name is.
pub columns-version_box :
    (name : Bytes) (n : ℕ)
    → let version_len = display_width (set_w 13 (codes "Version") ++ name) in
      let methods_len = display_width (set_w 13 (codes "Methods") ++ to_string n) in
      let width = max version_len methods_len in
      (version_box name n
        ≡ box_border (glyph 0x8C) (glyph 0x90) width
          ++ box_row width (codes "Version") name version_len
          ++ box_row width (codes "Methods") (to_string n) methods_len
          ++ box_border (glyph 0x94) (glyph 0x98) width
          ++ newline ∷ [])
      × (columns (box_border (glyph 0x8C) (glyph 0x90) width) ≡ width + 5)
      × (columns (box_row width (codes "Version") name version_len) ≡ width + 5)
      × (columns (box_row width (codes "Methods") (to_string n) methods_len) ≡ width + 5)
      × (columns (box_border (glyph 0x94) (glyph 0x98) width) ≡ width + 5)
unfolding version_box
columns-version_box name n =
    let version_len = display_width (set_w 13 (codes "Version") ++ name) in
    let methods_len = display_width (set_w 13 (codes "Methods") ++ to_string n) in
    let width = max version_len methods_len in
    let (_, _, _, _, _, tl, tr, bl, br, _, version, methods) = glyphs in
    (
      refl,
      columns-box_border (glyph 0x8C) (glyph 0x90) width tl tr,
      columns-box_row width (codes "Version") name version_len version refl (omega arith),
      columns-box_row width (codes "Methods") (to_string n) methods_len methods refl (omega arith),
      columns-box_border (glyph 0x94) (glyph 0x98) width bl br,
    )

-- The row of the box with the count is as wide as its borders.
pub columns-count_box :
    (n : ℕ)
    → let width = display_width (codes "Version: " ++ to_string n) in
      (count_box n
        ≡ box_border (glyph 0x8C) (glyph 0x90) width
          ++ count_row n
          ++ box_border (glyph 0x94) (glyph 0x98) width)
      × (columns (box_border (glyph 0x8C) (glyph 0x90) width) ≡ width + 5)
      × (columns (count_row n) ≡ width + 5)
      × (columns (box_border (glyph 0x94) (glyph 0x98) width) ≡ width + 5)
unfolding count_box count_row columns
columns-count_box n =
    let (_, _, _, _, _, tl, tr, bl, br, _, _, _) = glyphs in
    let width = display_width (codes "Version: " ++ to_string n) in
    (
      refl,
      columns-box_border (glyph 0x8C) (glyph 0x90) width tl tr,
      omega (arith, glyphs, display_width-append (codes "Version: ") (to_string n)),
      columns-box_border (glyph 0x94) (glyph 0x98) width bl br,
    )

-- The bit mask of a continuation byte is checked digit by digit.
digit_at : (k : ℕ) → k < 10 → is_continuation (b'0' + k) ≡ false
unfolding is_continuation
digit_at zero h = refl
digit_at (suc zero) h = refl
digit_at (suc (suc zero)) h = refl
digit_at (suc (suc (suc zero))) h = refl
digit_at (suc (suc (suc (suc zero)))) h = refl
digit_at (suc (suc (suc (suc (suc zero))))) h = refl
digit_at (suc (suc (suc (suc (suc (suc zero)))))) h = refl
digit_at (suc (suc (suc (suc (suc (suc (suc zero))))))) h = refl
digit_at (suc (suc (suc (suc (suc (suc (suc (suc zero)))))))) h = refl
digit_at (suc (suc (suc (suc (suc (suc (suc (suc (suc zero))))))))) h = refl
digit_at (suc (suc (suc (suc (suc (suc (suc (suc (suc (suc k)))))))))) h = absurd (omega arith)

digit_lem : (c : ℕ) → is_digit c ≡ true → is_continuation c ≡ false
unfolding is_digit
digit_lem c h =
    let low : b'0' ≤ c = ground (arith, h) in
    let high : c ≤ b'9' = ground (arith, h) in
    let e : b'0' + (c - b'0') ≡ c = omega arith in
    subst (λ x. is_continuation x ≡ false) e (digit_at (c - b'0') (omega arith))

display_width-digits : (s : Bytes) → AllDigits s → display_width s ≡ length s
unfolding display_width
display_width-digits [] d = refl
display_width-digits (c ∷ s) d = ground (arith, digit_lem c d.0, display_width-digits s d.1)

-- In the listing of a baseline, the id of every member of a letter takes the same number of columns,
-- if the letter is a character of its own: one more than the number of members has digits.
pub display_width-method_id :
    (l j n : ℕ)
    → is_continuation l ≡ false
    → j < n
    → display_width (set_w (length (to_string n) + 1) (method_id l j)) ≡ length (to_string n) + 1
unfolding set_w method_id display_width
display_width-method_id l j n h lt =
    let s = to_string (j + 1) in
    let w = length (to_string n) + 1 in
    ground (
      arith,
      display_width-append s (replicate (w - suc (length s)) b' '),
      display_width-digits s (to_string-AllDigits (j + 1)),
      display_width-spaces (w - suc (length s)),
      length-to_string-le (j + 1) n (omega arith),
    )

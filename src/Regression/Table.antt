-- ===== src/Regression/Table.antt =====
-- regression/custom/support/helpers.h: terminal columns of UTF-8 text, table cells and borders. A text
-- is its bytes. A width is a number; a negative width behaves as zero does.
pub mod Utf8
pub mod Cells
use Prim.Native.Nat.{bit_and}
use rate_throttle.Prelude.{
  ℕ, zero, suc, ◌+◌, ◌-◌, Bool, true, false, not, List, [], ◌∷◌, ◌++◌, leb, ltb, ◌==◌,
  if◌then◌else◌, length, take, drop, replicate,
}
use rate_throttle.Text.{Bytes, codes}

-- "─", "│", "░", "█" and the ellipsis "…"
abbrev pub h_line : Bytes
h_line = 0xE2 ∷ 0x94 ∷ 0x80 ∷ []

abbrev pub v_line : Bytes
v_line = 0xE2 ∷ 0x94 ∷ 0x82 ∷ []

abbrev pub light_shade : Bytes
light_shade = 0xE2 ∷ 0x96 ∷ 0x91 ∷ []

abbrev pub full_block : Bytes
full_block = 0xE2 ∷ 0x96 ∷ 0x88 ∷ []

abbrev pub ellipsis : Bytes
ellipsis = 0xE2 ∷ 0x80 ∷ 0xA6 ∷ []

-- `(c & 0xC0) == 0x80`
unfoldable pub is_continuation : ℕ → Bool
is_continuation c = bit_and c 0xC0 == 0x80

unfoldable pub display_width : Bytes → ℕ
display_width [] = 0
display_width (c ∷ s) = if not (is_continuation c) then suc (display_width s) else display_width s

unfoldable pub repeat : Bytes → ℕ → Bytes
repeat token zero = []
repeat token (suc n) = token ++ repeat token n

unfoldable pub pad_cell : Bytes → ℕ → Bytes
pad_cell s width =
    if leb width (display_width s) then s else s ++ replicate (width - display_width s) b' '

-- the length of the character that a byte begins
unfoldable pub char_length : ℕ → ℕ
char_length c =
    if bit_and c 0x80 == 0
    then 1
    else if bit_and c 0xE0 == 0xC0
    then 2
    else if bit_and c 0xF0 == 0xE0
    then 3
    else 4

-- The loop of truncateCell over the bytes that are left. Each round takes at least one byte, so the
-- length of the text is fuel enough.
unfoldable pub clip : ℕ → ℕ → ℕ → Bytes → Bytes → Bytes
clip zero cols width s out = out
clip (suc fuel) cols width [] out = out
clip (suc fuel) cols width (c ∷ s) out =
    let rest =
      clip fuel (cols + 1) width (drop (char_length c) (c ∷ s))
        (out ++ take (char_length c) (c ∷ s)) in
    if leb (width - 1) cols then out else rest

unfoldable pub truncate_cell : Bytes → ℕ → Bytes
unfolding clip
truncate_cell s width =
    if width == 0
    then []
    else if leb (display_width s) width
    then s
    else if width == 1
    then ellipsis
    else clip (length s) 0 width s [] ++ ellipsis

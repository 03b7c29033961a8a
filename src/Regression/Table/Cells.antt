-- ===== src/Regression/Table/Cells.antt =====
-- The widths of padded and truncated cells.
use Prim.Native.Nat.{min, max}
use rate_throttle.Prelude.{
  ℕ, zero, suc, ◌+◌, ◌-◌, ◌≤◌, ◌<◌, ◌≡◌, refl, sym, [], ◌∷◌, ◌++◌, leb, arith, length, replicate,
  ap, ◌∙◌, append_assoc, Bool-cases, inl, inr, length-append, append-nil,
}
use rate_throttle.Text.{Bytes}
use rate_throttle.Regression.Table.{
  is_continuation, display_width, pad_cell, clip, truncate_cell, ellipsis,
}
use rate_throttle.Regression.Table.Utf8.{
  IsText, done, char, display_width-append, display_width-char, display_width-spaces, take-char,
  drop-char,
}

-- A padded cell is as wide as asked for, or as its content where that is wider.
pub display_width-pad_cell :
    (s : Bytes) (width : ℕ) → display_width (pad_cell s width) ≡ max width (display_width s)
unfolding pad_cell
display_width-pad_cell s width = ground (
  arith,
  display_width-append s (replicate (width - display_width s) b' '),
  display_width-spaces (width - display_width s),
)

-- What the loop copies: the characters of the text that fit.
leading : {s : Bytes} → IsText s → ℕ → Bytes
leading done n = []
leading (char c cs s h k) zero = []
leading (char c cs s h k) (suc n) = c ∷ cs ++ leading k n

clip-leading :
    (fuel cols width : ℕ) (s : Bytes) (h : IsText s) (out : Bytes)
    → length s ≤ fuel
    → clip fuel cols width s out ≡ out ++ leading h (width - 1 - cols)
unfolding clip leading
clip-leading zero cols width _ done out le = sym (append-nil out)
clip-leading zero cols width _ (char c cs s h k) out le = absurd (omega arith)
clip-leading (suc fuel) cols width _ done out le = sym (append-nil out)
clip-leading (suc fuel) cols width _ (char c cs s h k) out le =
    elim (Bool-cases (leb (width - 1) cols)) [
      | inl full ↦
          let e : width - 1 - cols ≡ 0 = ground arith in rw (full, e) (sym (append-nil out))
      | inr room ↦
          let e : width - 1 - cols ≡ suc (width - 1 - (cols + 1)) = ground arith in
          let shorter : length s ≤ fuel = omega (arith, length-append cs s) in
          rw (room, e, take-char c cs s h, drop-char c cs s h)
            (clip-leading fuel (cols + 1) width s k (out ++ c ∷ cs) shorter
              ∙ append_assoc out (c ∷ cs) (leading k (width - 1 - (cols + 1))))
    ]

display_width-leading :
    {s : Bytes} (h : IsText s) (n : ℕ) → display_width (leading h n) ≡ min n (display_width s)
unfolding leading
display_width-leading done n = unfold display_width in omega arith
display_width-leading (char c cs s h k) zero = unfold display_width in omega arith
display_width-leading (char c cs s h k) (suc n) = omega (
  arith,
  display_width-append (c ∷ cs) (leading k n),
  display_width-append (c ∷ cs) s,
  display_width-char c cs h,
  display_width-leading k n,
)

-- The copied characters are a text, and the text continues behind them.
leading-IsText :
    {s : Bytes} (h : IsText s) (n : ℕ)
    → IsText (leading h n) × ((rest : Bytes) × (s ≡ leading h n ++ rest))
unfolding leading
leading-IsText done n = (done, ([], refl))
leading-IsText (char c cs s h k) zero = (done, (c ∷ cs ++ s, refl))
leading-IsText (char c cs s h k) (suc n) =
    let (text, (rest, e)) = leading-IsText k n in
    (
      char c cs (leading k n) h text,
      (rest, ap (λ (t : Bytes). c ∷ cs ++ t) e ∙ sym (append_assoc (c ∷ cs) (leading k n) rest)),
    )

display_width-ellipsis : display_width ellipsis ≡ 1
unfolding display_width is_continuation
display_width-ellipsis = refl

display_width-nil : display_width [] ≡ 0
unfolding display_width
display_width-nil = refl

pub display_width-truncate_cell :
    (s : Bytes) (width : ℕ)
    → IsText s
    → display_width (truncate_cell s width) ≡ min width (display_width s)
unfolding truncate_cell
display_width-truncate_cell s width h = ground (
  arith,
  clip-leading (length s) 0 width s h [] (omega arith),
  display_width-append (leading h (width - 1 - 0)) ellipsis,
  display_width-leading h (width - 1 - 0),
  display_width-ellipsis,
  display_width-nil,
)

leading-zero : {s : Bytes} (h : IsText s) → leading h 0 ≡ []
unfolding leading
leading-zero done = refl
leading-zero (char c cs s h k) = refl

truncate_cell_long :
    (s : Bytes) (width : ℕ) (h : IsText s)
    → width < display_width s
    → 0 < width
    → truncate_cell s width ≡ leading h (width - 1 - 0) ++ ellipsis
unfolding truncate_cell
truncate_cell_long s zero h long pos = absurd (omega arith)
truncate_cell_long s (suc zero) h long pos = ground (arith, leading-zero h)
truncate_cell_long s (suc (suc n)) h long pos =
    ground (arith, clip-leading (length s) 0 (suc (suc n)) s h [] (omega arith))

-- A well-formed UTF-8 text with more columns than a positive width is truncated to a well-formed
-- prefix of it and an ellipsis.
pub truncate_cell-prefix :
    (s : Bytes) (width : ℕ)
    → IsText s
    → width < display_width s
    → 0 < width
    → (kept : Bytes) × (rest : Bytes) × (truncate_cell s width ≡ kept ++ ellipsis)
      × (s ≡ kept ++ rest)
      × IsText kept
truncate_cell-prefix s width h long pos =
    let (text, (rest, e)) = leading-IsText h (width - 1 - 0) in
    (leading h (width - 1 - 0), rest, truncate_cell_long s width h long pos, e, text)

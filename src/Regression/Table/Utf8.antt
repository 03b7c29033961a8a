-- ===== src/Regression/Table/Utf8.antt =====
-- Well-formed UTF-8 text, and its terminal columns.
use rate_throttle.Prelude.{
  ℕ, zero, suc, ◌+◌, ◌*◌, ◌≡◌, refl, true, false, List, [], ◌∷◌, ◌++◌, arith, length, take, drop,
  replicate, ap, ◌∙◌, append_assoc,
}
use rate_throttle.Text.{Bytes}
use rate_throttle.Regression.Table.{is_continuation, display_width, repeat, char_length}

-- continuation bytes
abbrev pub AllContinue : Bytes → Type 0
AllContinue [] = Unit
AllContinue (c ∷ s) = (is_continuation c ≡ true) × AllContinue s

-- One character: a byte that is no continuation, and as many continuations as it announces.
pub record IsChar (c : ℕ) (cs : Bytes) : Type 0 where
  pub lead : is_continuation c ≡ false
  pub tail : AllContinue cs
  pub size : length cs + 1 ≡ char_length c

pub data IsText : Bytes → Type 0 where
  done : IsText []
  char : (c : ℕ) (cs s : Bytes) → IsChar c cs → IsText s → IsText (c ∷ cs ++ s)

pub display_width-append :
    (s t : Bytes) → display_width (s ++ t) ≡ display_width s + display_width t
unfolding display_width
display_width-append [] t = omega arith
display_width-append (c ∷ s) t = ground (arith, display_width-append s t)

pub display_width-repeat :
    (token : Bytes) (n : ℕ) → display_width (repeat token n) ≡ n * display_width token
unfolding repeat
display_width-repeat token zero = unfold display_width in omega arith
display_width-repeat token (suc n) =
    grind (arith, display_width-append token (repeat token n), display_width-repeat token n)

pub display_width-spaces : (n : ℕ) → display_width (replicate n b' ') ≡ n
unfolding display_width is_continuation
display_width-spaces zero = refl
display_width-spaces (suc n) = omega (arith, display_width-spaces n)

pub display_width-continue : (s : Bytes) → AllContinue s → display_width s ≡ 0
unfolding display_width
display_width-continue [] h = refl
display_width-continue (c ∷ s) h = ground (arith, display_width-continue s h.1)

pub display_width-char : (c : ℕ) (cs : Bytes) → IsChar c cs → display_width (c ∷ cs) ≡ 1
unfolding display_width
display_width-char c cs h = ground (arith, display_width-continue cs h.tail)

pub take-length-append : {A : Type 0} (xs ys : List A) → take (length xs) (xs ++ ys) ≡ xs
take-length-append [] ys = refl
take-length-append (x ∷ xs) ys = ap (◌∷◌ x) (take-length-append xs ys)

pub drop-length-append : {A : Type 0} (xs ys : List A) → drop (length xs) (xs ++ ys) ≡ ys
drop-length-append [] ys = refl
drop-length-append (x ∷ xs) ys = drop-length-append xs ys

-- The bytes of the first character of a text.
pub take-char : (c : ℕ) (cs s : Bytes) → IsChar c cs → take (char_length c) (c ∷ cs ++ s) ≡ c ∷ cs
take-char c cs s h =
    ap (λ (n : ℕ). take n (c ∷ cs ++ s)) {y = length (c ∷ cs)} (omega (arith, h.size))
    ∙ take-length-append (c ∷ cs) s

pub drop-char : (c : ℕ) (cs s : Bytes) → IsChar c cs → drop (char_length c) (c ∷ cs ++ s) ≡ s
drop-char c cs s h =
    ap (λ (n : ℕ). drop n (c ∷ cs ++ s)) {y = length (c ∷ cs)} (omega (arith, h.size))
    ∙ drop-length-append (c ∷ cs) s

pub IsText-append : {s t : Bytes} → IsText s → IsText t → IsText (s ++ t)
IsText-append done h = h
IsText-append {t = t} (char c cs s h k) l =
    let e : (c ∷ cs ++ s) ++ t ≡ c ∷ cs ++ (s ++ t) = append_assoc (c ∷ cs) s t in
    rw e (char c cs (s ++ t) h (IsText-append k l))

-- the witness that a character makes a text
pub IsText-char : (c : ℕ) (cs : Bytes) → IsChar c cs → IsText (c ∷ cs ++ [])
IsText-char c cs h = char c cs [] h done

-- ===== src/Text/Decimal.antt =====
-- std::to_string of an unsigned number and std::stoul of a text that begins with a digit; reading back
-- what was written.
pub mod Length
use rate_throttle.Prelude.{
  ℕ, zero, suc, ◌+◌, ◌*◌, ◌-◌, ◌/◌, ◌%◌, ◌^◌, ◌<◌, ◌≡◌, refl, true, false, [], ◌∷◌, ◌++◌, ltb,
  if◌then◌else◌, arith, ◌∙◌, ap,
}
use rate_throttle.Text.{Bytes, codes, is_digit, null, Result, ok, throw}

show : ℕ → ℕ → Bytes → Bytes
show zero n out = out
show (suc f) n out =
    let rest = show f (n / 10) ((b'0' + n % 10) ∷ out) in
    if ltb n 10 then (b'0' + n) ∷ out else rest

unfoldable pub to_string : ℕ → Bytes
unfolding show
to_string n = show (suc n) n []

-- the digits that a text begins with, read behind `n`
read : Bytes → ℕ → ℕ
read [] n = n
read (c ∷ s) n = let rest = read s (n * 10 + (c - b'0')) in if is_digit c then rest else n

unfoldable pub stoul : Bytes → Result ℕ
unfolding read
stoul [] = throw (codes "stoul")
stoul (c ∷ s) =
    if is_digit c
    then (let n = read (c ∷ s) 0 in if ltb n (2 ^ 64) then ok n else throw (codes "stoul"))
    else throw (codes "stoul")

abbrev pub AllDigits : Bytes → Type 0
AllDigits [] = Unit
AllDigits (c ∷ s) = (is_digit c ≡ true) × AllDigits s

digit_lem : (n : ℕ) → n < 10 → is_digit (b'0' + n) ≡ true
unfolding is_digit
digit_lem n h = ground arith

read-show : (f n : ℕ) (out : Bytes) → n < f → read (show f n out) 0 ≡ read out n
unfolding show read
read-show zero n out h = absurd (omega arith)
read-show (suc f) n out h =
    ground (arith, read-show f (n / 10) ((b'0' + n % 10) ∷ out), digit_lem n, digit_lem (n % 10))

show-AllDigits : (f n : ℕ) (out : Bytes) → n < f → AllDigits out → AllDigits (show f n out)
unfolding show
show-AllDigits zero n out h d = absurd (omega arith)
show-AllDigits (suc f) n out h d =
    ground
      (arith, show-AllDigits f (n / 10) ((b'0' + n % 10) ∷ out), digit_lem n, digit_lem (n % 10))

abbrev HasHead : Bytes → Type 0
HasHead [] = ⊥
HasHead (c ∷ s) = Unit

show-HasHead : (f n : ℕ) (out : Bytes) → n < f → HasHead (show f n out)
unfolding show
show-HasHead zero n out h = absurd (omega arith)
show-HasHead (suc f) n out h = ground (arith, show-HasHead f (n / 10) ((b'0' + n % 10) ∷ out))

stoul_of_digits :
    (s : Bytes) (n : ℕ) → HasHead s → AllDigits s → read s 0 ≡ n → n < 2 ^ 64 → stoul s ≡ ok n
unfolding stoul
stoul_of_digits [] n h d e lt = absurd h
stoul_of_digits (c ∷ s) n h d e lt = ground arith

-- A number is written in digits only,
pub to_string-AllDigits : (n : ℕ) → AllDigits (to_string n)
unfolding to_string
to_string-AllDigits n = show-AllDigits (suc n) n [] (omega arith) tt

-- with at least one of them,
pub to_string-HasHead : (n : ℕ) → null (to_string n) ≡ false
unfolding to_string
to_string-HasHead n = nonempty (show (suc n) n []) (show-HasHead (suc n) n [] (omega arith))
  where
    nonempty : (s : Bytes) → HasHead s → null s ≡ false
    nonempty [] h = absurd h
    nonempty (c ∷ s) h = refl

-- and it is read back if it fits an unsigned long.
pub stoul-to_string : (n : ℕ) → n < 2 ^ 64 → stoul (to_string n) ≡ ok n
unfolding to_string
stoul-to_string n h =
    stoul_of_digits (show (suc n) n []) n (show-HasHead (suc n) n [] (omega arith))
      (show-AllDigits (suc n) n [] (omega arith) tt)
      (read-show (suc n) n [] (omega arith) ∙ unfold read in refl) h

-- The digits that a text begins with, read behind `n`, and what follows them.
unfoldable pub read_digits : ℕ → Bytes → ℕ × Bytes
read_digits n [] = (n, [])
read_digits n (c ∷ s) =
    let rest = read_digits (n * 10 + (c - b'0')) s in if is_digit c then rest else (n, c ∷ s)

read_digits-show :
    (f n : ℕ) (out : Bytes) → n < f → read_digits 0 (show f n out) ≡ read_digits n out
unfolding show read_digits
read_digits-show zero n out h = absurd (omega arith)
read_digits-show (suc f) n out h =
    ground
      (arith, read_digits-show f (n / 10) ((b'0' + n % 10) ∷ out), digit_lem n, digit_lem (n % 10))

show-append : (f n : ℕ) (out more : Bytes) → show f n out ++ more ≡ show f n (out ++ more)
unfolding show
show-append zero n out more = refl
show-append (suc f) n out more = ground (arith, show-append f (n / 10) ((b'0' + n % 10) ∷ out) more)

pub read_digits-to_string : (n : ℕ) (s : Bytes) → read_digits 0 (to_string n ++ s) ≡ read_digits n s
unfolding to_string
read_digits-to_string n s =
    ap (read_digits 0) (show-append (suc n) n [] s) ∙ read_digits-show (suc n) n s (omega arith)

-- ===== src/Text/Decimal/Length.antt =====
-- How many digits std::to_string writes.
use rate_throttle.Prelude.{
  ℕ, zero, suc, ◌+◌, ◌/◌, ◌%◌, ◌≤◌, ◌<◌, ◌≡◌, [], ◌∷◌, ltb, if◌then◌else◌, arith, length,
}
use rate_throttle.Text.{Bytes}
use rate_throttle.Text.Decimal.{show, to_string}

digits : ℕ → ℕ → ℕ
digits zero n = 0
digits (suc f) n = let rest = suc (digits f (n / 10)) in if ltb n 10 then 1 else rest

length-show : (f n : ℕ) (out : Bytes) → length (show f n out) ≡ digits f n + length out
unfolding show digits
length-show zero n out = omega arith
length-show (suc f) n out = ground (arith, length-show f (n / 10) ((b'0' + n % 10) ∷ out))

digits-le : (f m n : ℕ) → m ≤ n → digits f m ≤ digits f n
unfolding digits
digits-le zero m n h = omega arith
digits-le (suc f) m n h = ground (arith, digits-le f (m / 10) (n / 10), digits_pos f (n / 10))
  where
    digits_pos : (f n : ℕ) → 1 ≤ suc (digits f n)
    digits_pos f n = omega arith

digits_fuel : (f g n : ℕ) → n < f → n < g → digits f n ≡ digits g n
unfolding digits
digits_fuel zero g n h k = absurd (omega arith)
digits_fuel (suc f) zero n h k = absurd (omega arith)
digits_fuel (suc f) (suc g) n h k = ground (arith, digits_fuel f g (n / 10))

-- A number has no more digits than a larger one.
pub length-to_string-le : (m n : ℕ) → m ≤ n → length (to_string m) ≤ length (to_string n)
unfolding to_string
length-to_string-le m n h = omega (
  arith,
  length-show (suc m) m [],
  length-show (suc n) n [],
  digits-le (suc n) m n h,
  digits_fuel (suc m) (suc n) m,
)

-- ===== src/Regression/Double/Numbers.antt =====
-- Natural numbers in the place of doubles, to evaluate the tools with.
use Prim.Native.Nat.{max}
use rate_throttle.Prelude.{◌-◌, ◌*◌, ◌/◌, ◌^◌, ◌==◌, ltb, leb, ◌∷◌, ℕ}
use rate_throttle.Prelude.Int.{pos}
use rate_throttle.Text.Decimal.{to_string}
use rate_throttle.Regression.Double.{Double}

abbrev pub numbers : Double
numbers = record {
  D = ℕ;
  of_ℕ = λ n. n;
  quotient = λ i k. 0;
  sub = λ a b. a - b;
  mul = λ a b. a * b;
  div = λ a b. a / b;
  fabs = λ a. a;
  max = λ a b. max a b;
  lt = ltb;
  le = leb;
  eq = λ a b. a == b;
  lround = pos;
  to_int = pos;
  round = λ a. a;
  pow10 = λ n. 10 ^ n;
  log10_floor = λ n. 0;
  fixed = λ p a. to_string a;
  fixed_showpos = λ p a. b'+' ∷ to_string a;
}

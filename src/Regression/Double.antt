-- ===== src/Regression/Double.antt =====
-- The doubles that the tool computes with, as an interface: the operations that the source calls, and
-- the printing of the stream manipulators that it sets. No theorem assumes a law of them.
pub mod Numbers
use rate_throttle.Prelude.{ℕ, Bool}
use rate_throttle.Prelude.Int.{ℤ}
use rate_throttle.Text.{Bytes}

pub record Double : Type 1 where
  pub D : Type 0
  pub of_ℕ : ℕ → D
  -- `duration<double, Period>(ns).count()`: a count of nanoseconds over the unit's nanoseconds
  pub quotient : ℤ → ℕ → D
  pub sub : D → D → D
  pub mul : D → D → D
  pub div : D → D → D
  pub fabs : D → D
  pub max : D → D → D
  pub lt : D → D → Bool
  pub le : D → D → Bool
  pub eq : D → D → Bool
  -- std::lround and std::llround; static_cast<int>
  pub lround : D → ℤ
  pub to_int : D → ℤ
  -- std::round, std::pow(10.0, n), and floor(log10(x)) of an `x` that is at least one
  pub round : D → D
  pub pow10 : ℕ → D
  pub log10_floor : D → ℕ
  -- std::fixed with a precision, without and with std::showpos
  pub fixed : ℕ → D → Bytes
  pub fixed_showpos : ℕ → D → Bytes

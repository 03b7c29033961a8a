-- ===== src/Examples/Suites.antt =====
-- examples/suite: what the examples print, over the cache that is a parameter. The clock's reading is an
-- argument; `none` is an exception of the limiter's constructor. The modules below this one hold the
-- examples by category.
pub mod Quickstart
pub mod Patterns
pub mod Misuse
pub mod Advanced
pub mod Integration
pub mod Answers
pub mod Evictions
mod Tests
use rate_throttle.Prelude.{ℕ, Bool, true, false, List, [], ◌∷◌, ◌++◌, Option, none, some}
use rate_throttle.Prelude.Int.{ℤ, pos, ◌+ℤ◌}
use rate_throttle.Text.{Bytes, codes}
use rate_throttle.Regression.Report.{Piece, text, reset, cyan, newline}
use rate_throttle.Limiter.{nanoseconds}
use rate_throttle.Examples.{prettify}

infixl 5 ◌>>=◌
abbrev pub ◌>>=◌ {ℓ κ} : {A : Type ℓ} {B : Type κ} → Option A → (A → Option B) → Option B
none >>= f = none
some a >>= f = f a

-- setTitle
abbrev pub set_title : Bytes → List Piece
set_title title = cyan ∷ text (prettify title) ∷ reset ∷ newline ∷ []

-- a bool behind a label, and what follows it on the line
abbrev pub shown : Bytes → Bool → Bytes → List Piece
shown label true rest = text label ∷ text (codes "1") ∷ text rest ∷ newline ∷ []
shown label false rest = text label ∷ text (codes "0") ∷ text rest ∷ newline ∷ []

-- the line that a condition chooses
abbrev pub choice : Bool → Bytes → Bytes → List Piece
choice true yes_line no_line = text yes_line ∷ newline ∷ []
choice false yes_line no_line = text no_line ∷ newline ∷ []

-- a time point and a number of milliseconds
abbrev pub later_by : ℕ → ℤ → ℤ
later_by ms now = now +ℤ nanoseconds (pos ms)

abbrev pub client_a : Bytes
client_a = codes "client-a"

abbrev pub client_b : Bytes
client_b = codes "client-b"

abbrev pub client_c : Bytes
client_c = codes "client-c"

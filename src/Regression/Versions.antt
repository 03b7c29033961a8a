-- ===== src/Regression/Versions.antt =====
-- regression/custom/support/helpers.h: the version tags of the baselines, and the newest of them. A
-- stream is the text that is left of it; the entries of benchmarks/baselines are a parameter.
pub mod Agree
pub mod Newest
pub mod Order
use rate_throttle.Prelude.{
  ℕ, zero, suc, ◌+◌, ◌*◌, ◌-◌, ◌^◌, Bool, true, false, ◌&&◌, ◌||◌, not, List, [], ◌∷◌, ◌++◌, ltb,
  leb, ◌==◌, if◌then◌else◌, Option, none, some,
}
use rate_throttle.Prelude.Int.{ℤ, pos, negsuc, ltb_ℤ}
use rate_throttle.Text.{Bytes, codes, is_digit, null, Result, ok, throw}
use rate_throttle.Text.Decimal.{read_digits}

-- std::isspace in the "C" locale
unfoldable pub is_space : ℕ → Bool
is_space c = c == 0x20 || leb 0x09 c && leb c 0x0D

unfoldable pub skip_space : Bytes → Bytes
skip_space [] = []
skip_space (c ∷ s) = let rest = skip_space s in if is_space c then rest else c ∷ s

-- the digits of an int behind its sign; the stream fails when there is none, or out of range
unfoldable pub extract_digits : (ℕ → Option ℤ) → Bytes → Option (ℤ × Bytes)
extract_digits in_range [] = none
extract_digits in_range (c ∷ s) =
    if is_digit c
    then (let (n, rest) = read_digits 0 (c ∷ s) in
        elim (in_range n) [ none ↦ none | some i ↦ some (i, rest) ])
    else none

unfoldable pub non_negative : ℕ → Option ℤ
non_negative n = if ltb n (2 ^ 31) then some (pos n) else none

unfoldable pub negative : ℕ → Option ℤ
negative zero = some (pos 0)
negative (suc n) = if ltb n (2 ^ 31) then some (negsuc n) else none

unfoldable pub extract_signed : Bytes → Option (ℤ × Bytes)
extract_signed [] = none
extract_signed (c ∷ s) =
    if c == b'-'
    then extract_digits negative s
    else if c == b'+'
    then extract_digits non_negative s
    else extract_digits non_negative (c ∷ s)

-- `ss >> i` of an int, and `ss >> c` of a char
unfoldable pub extract_int : Bytes → Option (ℤ × Bytes)
extract_int s = extract_signed (skip_space s)

unfoldable pub first_char : Bytes → Option (ℕ × Bytes)
first_char [] = none
first_char (c ∷ s) = some (c, s)

unfoldable pub extract_char : Bytes → Option (ℕ × Bytes)
extract_char s = first_char (skip_space s)

pub record Baseline : Type 0 where
  pub major : ℤ
  pub minor : ℤ
  pub patch : ℤ
  pub name : Bytes

infixl 5 ◌>>=◌
abbrev ◌>>=◌ {ℓ κ} : {A : Type ℓ} {B : Type κ} → Option A → (A → Option B) → Option B
none >>= f = none
some a >>= f = f a

-- `ss >> major >> dot1 >> minor >> dot2 >> patch`, both dots checked; and what is left
unfoldable pub extract_version : Bytes → Bytes → Option (Baseline × Bytes)
extract_version name s = do
  (major, s) ← extract_int s
  (dot1, s) ← extract_char s
  (minor, s) ← extract_int s
  (dot2, s) ← extract_char s
  (patch, s) ← extract_int s
  (if not (dot1 == b'.') || not (dot2 == b'.')
      then none
      else some (record { major = major; minor = minor; patch = patch; name = name }, s))

unfoldable pub has_v : Bytes → Bool
has_v [] = false
has_v (c ∷ s) = c == b'v' || c == b'V'

unfoldable pub strip_v : Bytes → Bytes
strip_v [] = []
strip_v (c ∷ s) = if c == b'v' || c == b'V' then s else c ∷ s

unfoldable pub parse_baseline : Bytes → Result Baseline
parse_baseline name = elim (extract_version name (strip_v name)) [
  | none ↦ throw (codes "Invalid version: " ++ name)
  | some (baseline, rest) ↦ ok baseline
]

-- `out` is written only when the argument is a version
unfoldable pub try_parse_version_arg : Bytes → Option Baseline
try_parse_version_arg arg =
    if not (has_v arg) then none else elim (extract_version arg (strip_v arg)) [
      | none ↦ none
      | some (baseline, rest) ↦ if null (skip_space rest) then some baseline else none
    ]

-- std::string's <
unfoldable pub bytes_lt : Bytes → Bytes → Bool
bytes_lt s [] = false
bytes_lt [] (d ∷ t) = true
bytes_lt (c ∷ s) (d ∷ t) =
    let rest = bytes_lt s t in if ltb c d then true else if ltb d c then false else rest

-- the defaulted operator<=>, member by member: the next members decide where two are equal
unfoldable pub then_lt : ℤ → ℤ → Bool → Bool
then_lt i j next = if ltb_ℤ i j then true else if ltb_ℤ j i then false else next

unfoldable pub baseline_lt : Baseline → Baseline → Bool
baseline_lt a b =
    then_lt a.major b.major
      (then_lt a.minor b.minor (then_lt a.patch b.patch (bytes_lt a.name b.name)))

-- An entry of the directory: whether it is one, and its name.
pub record Entry : Type 0 where
  pub is_directory : Bool
  pub filename : Bytes

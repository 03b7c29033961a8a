-- ===== src/Regression/Versions/Agree.antt =====
-- Version tags that are written out, under the two parsers.
use rate_throttle.Prelude.{
  ℕ, ◌^◌, ◌<◌, ◌≡◌, refl, sym, ◌∙◌, false, [], ◌∷◌, ◌++◌, Option, none, some, arith, append-nil,
  Bool-cases, inl, inr, if◌then◌else◌,
}
use rate_throttle.Prelude.Int.{pos}
use rate_throttle.Text.{Bytes, is_digit, null, ok, throw}
use rate_throttle.Text.Decimal.{
  to_string, read_digits, AllDigits, to_string-AllDigits, to_string-HasHead, read_digits-to_string,
}
use rate_throttle.Regression.Versions.{
  Baseline, is_space, skip_space, extract_digits, non_negative, extract_signed, extract_int,
  first_char, extract_char, extract_version, has_v, strip_v, parse_baseline, try_parse_version_arg,
}

-- The text that ends, or goes on with something else than a digit.
abbrev Ends : Bytes → Type 0
Ends [] = Unit
Ends (c ∷ s) = is_digit c ≡ false

read_digits-Ends : (n : ℕ) (s : Bytes) → Ends s → read_digits n s ≡ (n, s)
unfolding read_digits
read_digits-Ends n [] h = refl
read_digits-Ends n (c ∷ s) h = ground (arith, h)

digits_lem :
    (ds s : Bytes) (n : ℕ)
    → null ds ≡ false
    → AllDigits ds
    → read_digits 0 (ds ++ s) ≡ (n, s)
    → n < 2 ^ 31
    → extract_int (ds ++ s) ≡ some (pos n, s)
unfolding extract_int skip_space is_space extract_signed extract_digits non_negative is_digit
digits_lem [] s n h d e lt = ground arith
digits_lem (c ∷ ds) s n h d e lt = ground (arith, e)

extract_int-to_string :
    (n : ℕ) (s : Bytes) → n < 2 ^ 31 → Ends s → extract_int (to_string n ++ s) ≡ some (pos n, s)
extract_int-to_string n s lt h =
    digits_lem (to_string n) s n (to_string-HasHead n) (to_string-AllDigits n)
      (read_digits-to_string n s ∙ read_digits-Ends n s h) lt

-- The tag `v1.2.3` of three numbers.
abbrev pub version_tag : ℕ → ℕ → ℕ → Bytes
version_tag major minor patch =
    b'v' ∷ (to_string major ++ (b'.' ∷ (to_string minor ++ (b'.' ∷ to_string patch))))

dot_lem : (s : Bytes) → extract_char (b'.' ∷ s) ≡ some (b'.', s)
unfolding extract_char skip_space is_space first_char
dot_lem s = ground arith

extract_tag :
    (name : Bytes) (a b c : ℕ)
    → a < 2 ^ 31
    → b < 2 ^ 31
    → c < 2 ^ 31
    → extract_version name (to_string a ++ (b'.' ∷ (to_string b ++ (b'.' ∷ to_string c))))
      ≡ some (record { major = pos a; minor = pos b; patch = pos c; name = name }, [])
unfolding extract_version is_digit
extract_tag name a b c ha hb hc =
    rw (extract_int-to_string a (b'.' ∷ (to_string b ++ (b'.' ∷ to_string c))) ha refl) (
      rw (dot_lem (to_string b ++ (b'.' ∷ to_string c))) (
        rw (extract_int-to_string b (b'.' ∷ to_string c) hb refl) (
          rw (dot_lem (to_string c))
            (rw (sym (append-nil (to_string c))) (rw (extract_int-to_string c [] hc tt) refl)))))

-- The tag that is written for three numbers below 2 ^ 31 is read back as these numbers, with the tag
-- as the name, from a folder and from the command line.
pub parse-version_tag :
    (a b c : ℕ)
    → a < 2 ^ 31
    → b < 2 ^ 31
    → c < 2 ^ 31
    → (parse_baseline (version_tag a b c)
        ≡ ok (record { major = pos a; minor = pos b; patch = pos c; name = version_tag a b c }))
      × (try_parse_version_arg (version_tag a b c)
          ≡ some (record { major = pos a; minor = pos b; patch = pos c; name = version_tag a b c }))
unfolding parse_baseline try_parse_version_arg has_v strip_v skip_space
parse-version_tag a b c ha hb hc = (
  rw (extract_tag (version_tag a b c) a b c ha hb hc, parse_baseline) refl,
  rw (extract_tag (version_tag a b c) a b c ha hb hc, try_parse_version_arg) refl,
)

agree_lem :
    (arg : Bytes) (b : Baseline) (e : Option (Baseline × Bytes))
    → (elim e [ none ↦ none | some (b', rest) ↦ if null (skip_space rest) then some b' else none ])
      ≡ some b
    → (elim e [ none ↦ throw arg | some (b', rest) ↦ ok b' ]) ≡ ok b
agree_lem arg b none h = cc
agree_lem arg b (some (b', rest)) h = ground arith

-- An argument that the command line accepts as a version is read as the same baseline when it is the
-- name of a folder.
pub try_parse-parse :
    (arg : Bytes) (b : Baseline) → try_parse_version_arg arg ≡ some b → parse_baseline arg ≡ ok b
unfolding try_parse_version_arg parse_baseline
try_parse-parse arg b h = elim (Bool-cases (has_v arg)) [
  | inl e ↦ agree_lem _ b (extract_version arg (strip_v arg)) (ground arith)
  | inr e ↦ ground arith
]

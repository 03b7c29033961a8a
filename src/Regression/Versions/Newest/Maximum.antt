-- ===== src/Regression/Versions/Newest/Maximum.antt =====
-- The newest baseline is a maximum of those that the listing shows.
use rate_throttle.Prelude.{
  ◌≡◌, refl, sym, ◌∙◌, ap, inl, inr, List, [], ◌∷◌, ◌++◌, Option, none, some, arith, Bool-cases,
  not, ◌||◌,
}
use mathlib.Core.Path.{subst}
use rate_throttle.Text.{Bytes, codes, Result, ok, throw, ◌>>=◌}
use rate_throttle.Regression.Versions.{
  Baseline, Entry, parse_baseline, baseline_lt, extract_version,
}
use rate_throttle.Regression.Versions.Order.{
  NoneNewer, IsOneOf, newest, newest-IsOneOf, newest-NoneNewer,
}
use rate_throttle.Regression.Versions.Newest.{
  newer, consider, newest_loop, latest_baseline, collect_baselines, is_custom_baseline_name,
}

-- What the loop holds, as the baseline that it is of.
abbrev pub held : Option Baseline → Option (Baseline × Bytes)
held none = none
held (some b) = some (b, b.name)

abbrev pub after : Option Baseline → List Baseline → Option Baseline
after none [] = none
after none (b ∷ bs) = some (newest b bs)
after (some b) bs = some (newest b bs)

-- A baseline has the name of its folder.
parse-name : (name : Bytes) (b : Baseline) → parse_baseline name ≡ ok b → b.name ≡ name
unfolding parse_baseline extract_version
parse-name name b h = ground arith

newer-held :
    (latest : Option Baseline) (b : Baseline)
    → newer (held latest) b b.name ≡ held (after latest (b ∷ []))
unfolding newer newest
newer-held none b = refl
newer-held (some a) b = elim (Bool-cases (baseline_lt a b)) [ inl e ↦ rw (e) | inr e ↦ rw (e) ]

after-step :
    (latest : Option Baseline) (b : Baseline) (bs : List Baseline)
    → after (after latest (b ∷ [])) bs ≡ after latest (b ∷ bs)
unfolding newest
after-step none b bs = refl
after-step (some a) b bs = refl

-- The loop's result, from what the listing collects.
abbrev pub outcome : Option Baseline → Result (List Baseline) → Result (Option (Baseline × Bytes))
outcome latest (ok bs) = ok (held (after latest bs))
outcome latest (throw e) = throw e

outcome-cons_ok :
    (latest : Option Baseline) (b : Baseline) (r : Result (List Baseline))
    → outcome (after latest (b ∷ [])) r ≡ outcome latest (r >>= λ bs. ok (b ∷ bs))
outcome-cons_ok latest b (ok bs) = ap (λ o. ok (held o)) (after-step latest b bs)
outcome-cons_ok latest b (throw e) = refl

-- An entry that is read, by the result of reading it.
turn_lem :
    (latest : Option Baseline) (name : Bytes) (entries : List Entry) (p : Result Baseline)
    → ((b : Baseline) → p ≡ ok b → b.name ≡ name)
    → ((l : Option Baseline) → newest_loop (held l) entries ≡ outcome l (collect_baselines entries))
    → (p >>= λ b. ok (newer (held latest) b name)) >>= (λ l. newest_loop l entries)
      ≡ outcome latest (p >>= λ b. collect_baselines entries >>= λ bs. ok (b ∷ bs))
turn_lem latest name entries (throw e) named ih = refl
turn_lem latest name entries (ok b) named ih =
    ap (λ d. newest_loop (newer (held latest) b d) entries) (sym (named b refl))
    ∙ ap (λ o. newest_loop o entries) (newer-held latest b)
    ∙ ih (after latest (b ∷ []))
    ∙ outcome-cons_ok latest b (collect_baselines entries)

pub loop-collect :
    (latest : Option Baseline) (entries : List Entry)
    → newest_loop (held latest) entries ≡ outcome latest (collect_baselines entries)
unfolding newest_loop collect_baselines consider newest
loop-collect none [] = refl
loop-collect (some b) [] = refl
loop-collect latest (entry ∷ entries) =
    elim (Bool-cases (not entry.is_directory || not (is_custom_baseline_name entry.filename))) [
      | inl e ↦ rw (e) (loop-collect latest entries)
      | inr e ↦ rw (e) (
          turn_lem latest entry.filename entries (parse_baseline entry.filename)
            (parse-name entry.filename) (λ l. loop-collect l entries))
    ]

abbrev pub path_of : Baseline → Bytes
path_of b = codes "benchmarks/baselines/" ++ b.name ++ b'/' ∷ b.name ++ codes ".json"

-- The answer is the path of a newest baseline of the listing; where there is none, or the listing
-- fails, it is the error.
abbrev pub IsNewest : Result (List Baseline) → Result Bytes → Type 0
IsNewest (throw e) answer = answer ≡ throw e
IsNewest (ok []) answer = answer ≡ throw (codes "No baseline snapshots found.")
IsNewest (ok (b ∷ bs)) answer =
    (m : Baseline) × IsOneOf m (b ∷ bs) × NoneNewer m (b ∷ bs) × (answer ≡ ok (path_of m))

abbrev answer_of : Result (Option (Baseline × Bytes)) → Result Bytes
answer_of r = r >>= λ latest. elim latest [
  | none ↦ throw (codes "No baseline snapshots found.")
  | some (baseline, dir) ↦ ok (codes "benchmarks/baselines/" ++ dir ++ b'/' ∷ dir ++ codes ".json")
]

answer_lem : (r : Result (List Baseline)) → IsNewest r (answer_of (outcome none r))
answer_lem (throw e) = refl
answer_lem (ok []) = refl
answer_lem (ok (b ∷ bs)) = (newest b bs, newest-IsOneOf b bs, newest-NoneNewer b bs, refl)

-- What latestBaseline answers about the entries of the directory, from what the listing collects of
-- them: the listing's error, an error if it is empty, or else the path of the file of a listed
-- baseline than which no listed one is newer.
pub latest_baseline-IsNewest :
    (entries : List Entry) → IsNewest (collect_baselines entries) (latest_baseline entries)
unfolding latest_baseline
latest_baseline-IsNewest entries =
    subst (λ r. IsNewest (collect_baselines entries) (answer_of r))
      (sym (loop-collect none entries)) (answer_lem (collect_baselines entries))

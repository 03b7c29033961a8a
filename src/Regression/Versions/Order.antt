-- ===== src/Regression/Versions/Order.antt =====
-- regression/custom/support/helpers.h, Baseline's order: it is a total order, so the baseline that a
-- search keeps is a maximum.
use mathlib.Core.Path.{subst}
use rate_throttle.Prelude.{
  ◌≡◌, refl, sym, ◌⊎◌, inl, inr, Bool, true, false, List, [], ◌∷◌, arith, Bool-cases, if◌then◌else◌,
}
use rate_throttle.Prelude.Int.{ℤ}
use rate_throttle.Text.{Bytes}
use rate_throttle.Regression.Versions.{Baseline, baseline_lt, bytes_lt, then_lt}

bytes_lt_trans : (s t u : Bytes) → bytes_lt s t ≡ true → bytes_lt t u ≡ true → bytes_lt s u ≡ true
unfolding bytes_lt
bytes_lt_trans s [] u h k = cc
bytes_lt_trans s (d ∷ t) [] h k = cc
bytes_lt_trans [] (d ∷ t) (e ∷ u) h k = refl
bytes_lt_trans (c ∷ s) (d ∷ t) (e ∷ u) h k = ground (arith, bytes_lt_trans s t u)

bytes_lt_irrefl : (s : Bytes) → bytes_lt s s ≡ false
unfolding bytes_lt
bytes_lt_irrefl [] = refl
bytes_lt_irrefl (c ∷ s) = ground (arith, bytes_lt_irrefl s)

then_lt_trans :
    (i j k : ℤ) (r s t : Bool)
    → (r ≡ true → s ≡ true → t ≡ true)
    → then_lt i j r ≡ true
    → then_lt j k s ≡ true
    → then_lt i k t ≡ true
unfolding then_lt
then_lt_trans i j k r s t f g h = ground arith

pub baseline_lt_trans :
    (a b c : Baseline) → baseline_lt a b ≡ true → baseline_lt b c ≡ true → baseline_lt a c ≡ true
unfolding baseline_lt
baseline_lt_trans a b c = then_lt_trans a.major b.major c.major _ _ _ (
    then_lt_trans a.minor b.minor c.minor _ _ _
      (then_lt_trans a.patch b.patch c.patch _ _ _ (bytes_lt_trans a.name b.name c.name)))

pub baseline_lt_irrefl : (a : Baseline) → baseline_lt a a ≡ false
unfolding baseline_lt then_lt
baseline_lt_irrefl a = ground (arith, bytes_lt_irrefl a.name)

bytes_lt_cotrans :
    (s t u : Bytes) → bytes_lt s t ≡ false → bytes_lt t u ≡ false → bytes_lt s u ≡ false
unfolding bytes_lt
bytes_lt_cotrans s t [] h k = refl
bytes_lt_cotrans [] [] (e ∷ u) h k = k
bytes_lt_cotrans [] (d ∷ t) (e ∷ u) h k = cc
bytes_lt_cotrans (c ∷ s) [] (e ∷ u) h k = cc
bytes_lt_cotrans (c ∷ s) (d ∷ t) (e ∷ u) h k = ground (arith, bytes_lt_cotrans s t u)

then_lt_cotrans :
    (i j k : ℤ) (r s t : Bool)
    → (r ≡ false → s ≡ false → t ≡ false)
    → then_lt i j r ≡ false
    → then_lt j k s ≡ false
    → then_lt i k t ≡ false
unfolding then_lt
then_lt_cotrans i j k r s t f g h = ground arith

baseline_lt_cotrans :
    (a b c : Baseline) → baseline_lt a b ≡ false → baseline_lt b c ≡ false → baseline_lt a c ≡ false
unfolding baseline_lt
baseline_lt_cotrans a b c = then_lt_cotrans a.major b.major c.major _ _ _ (
    then_lt_cotrans a.minor b.minor c.minor _ _ _
      (then_lt_cotrans a.patch b.patch c.patch _ _ _ (bytes_lt_cotrans a.name b.name c.name)))

-- No baseline of the list is newer than `m`; `m` is one of them.
abbrev pub NoneNewer : Baseline → List Baseline → Type 0
NoneNewer m [] = Unit
NoneNewer m (b ∷ bs) = (baseline_lt m b ≡ false) × NoneNewer m bs

abbrev pub IsOneOf : Baseline → List Baseline → Type 0
IsOneOf m [] = ⊥
IsOneOf m (b ∷ bs) = (m ≡ b) ⊎ IsOneOf m bs

-- The loop of latestBaseline on the baselines alone.
unfoldable pub newest : Baseline → List Baseline → Baseline
newest b [] = b
newest b (c ∷ bs) = newest (if baseline_lt b c then c else b) bs

not_newer_lem :
    (a b m : Baseline) → baseline_lt m a ≡ false → baseline_lt b a ≡ true → baseline_lt m b ≡ false
not_newer_lem a b m h k = elim (Bool-cases (baseline_lt m b)) [
  | inl e ↦ ground (arith, h, baseline_lt_trans m b a e k)
  | inr e ↦ e
]

-- the start of the loop is not newer than its end
newest-start : (b : Baseline) (bs : List Baseline) → baseline_lt (newest b bs) b ≡ false
unfolding newest
newest-start b [] = baseline_lt_irrefl b
newest-start b (c ∷ bs) = elim (Bool-cases (baseline_lt b c)) [
  | inl e ↦ ground (arith, e, not_newer_lem c b (newest c bs) (newest-start c bs) e)
  | inr e ↦ ground (arith, e, newest-start b bs)
]

newest-true :
    (b c : Baseline) (bs : List Baseline) → baseline_lt b c ≡ true → newest b (c ∷ bs) ≡ newest c bs
unfolding newest
newest-true b c bs e = rw (e)

newest-false :
    (b c : Baseline) (bs : List Baseline)
    → baseline_lt b c ≡ false
    → newest b (c ∷ bs) ≡ newest b bs
unfolding newest
newest-false b c bs e = rw (e)

pub newest-NoneNewer : (b : Baseline) (bs : List Baseline) → NoneNewer (newest b bs) (b ∷ bs)
unfolding newest
newest-NoneNewer b [] = (baseline_lt_irrefl b, tt)
newest-NoneNewer b (c ∷ bs) = elim (Bool-cases (baseline_lt b c)) [
  | inl e ↦
      subst (λ m. NoneNewer m (b ∷ c ∷ bs)) (sym (newest-true b c bs e))
        (not_newer_lem c b (newest c bs) (newest-start c bs) e, newest-NoneNewer c bs)
  | inr e ↦
      subst (λ m. NoneNewer m (b ∷ c ∷ bs)) (sym (newest-false b c bs e))
        (
          newest-start b bs,
          (baseline_lt_cotrans (newest b bs) b c (newest-start b bs) e, (newest-NoneNewer b bs).1),
        )
]

pub newest-IsOneOf : (b : Baseline) (bs : List Baseline) → IsOneOf (newest b bs) (b ∷ bs)
unfolding newest
newest-IsOneOf b [] = inl refl
newest-IsOneOf b (c ∷ bs) = elim (Bool-cases (baseline_lt b c)) [
  | inl e ↦
      subst (λ m. IsOneOf m (b ∷ c ∷ bs)) (sym (newest-true b c bs e)) (inr (newest-IsOneOf c bs))
  | inr e ↦
      subst (λ m. IsOneOf m (b ∷ c ∷ bs)) (sym (newest-false b c bs e))
        (elim (newest-IsOneOf b bs) [ inl h ↦ inl h | inr h ↦ inr (inr h) ])
]

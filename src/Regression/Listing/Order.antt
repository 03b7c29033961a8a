-- ===== src/Regression/Listing/Order.antt =====
-- The order in which the listings show the baselines.
use mathlib.Core.List.{Perm}
use mathlib.Core.List.Perm
use rate_throttle.Prelude.{◌≡◌, true, false, List, [], ◌∷◌, arith, Bool-cases, inl, inr}
use rate_throttle.Regression.Versions.{Baseline, baseline_lt}
use rate_throttle.Regression.Versions.Order.{baseline_lt_trans, baseline_lt_irrefl}
use rate_throttle.Regression.Listing.{insert_baseline, sort_baselines}

-- No baseline stands before an older one.
abbrev pub OldestFirst : List Baseline → Type 0
OldestFirst [] = Unit
OldestFirst (b ∷ []) = Unit
OldestFirst (b ∷ c ∷ cs) = (baseline_lt c b ≡ false) × OldestFirst (c ∷ cs)

baseline_lt_asymm : (b c : Baseline) → baseline_lt b c ≡ true → baseline_lt c b ≡ false
baseline_lt_asymm b c h = elim (Bool-cases (baseline_lt c b)) [
  | inl e ↦ absurd (ground (arith, baseline_lt_irrefl b, baseline_lt_trans b c b h e))
  | inr e ↦ e
]

insert-OldestFirst :
    (b : Baseline) (bs : List Baseline) → OldestFirst bs → OldestFirst (insert_baseline b bs)
unfolding insert_baseline
insert-OldestFirst b [] h = tt
insert-OldestFirst b (c ∷ []) h = ground (arith, baseline_lt_asymm c b)
insert-OldestFirst b (c ∷ d ∷ ds) h =
    ground (arith, baseline_lt_asymm c b, insert-OldestFirst b (d ∷ ds))

insert-perm : (b : Baseline) (bs : List Baseline) → Perm (insert_baseline b bs) (b ∷ bs)
unfolding insert_baseline
insert-perm b [] = Perm.refl (b ∷ [])
insert-perm b (c ∷ cs) = elim (Bool-cases (baseline_lt c b)) [
  | inl less ↦ rw less (Perm.trans (Perm.cons c (insert-perm b cs)) (Perm.swap b c cs))
  | inr not_less ↦ rw not_less (Perm.refl (b ∷ c ∷ cs))
]

-- The sorted baselines are those that were collected, each as often, and none stands before an older
-- one.
pub sort_baselines-OldestFirst :
    (bs : List Baseline) → OldestFirst (sort_baselines bs) × Perm (sort_baselines bs) bs
unfolding sort_baselines
sort_baselines-OldestFirst [] = (tt, Perm.refl [])
sort_baselines-OldestFirst (b ∷ bs) =
    let (sorted, perm) = sort_baselines-OldestFirst bs in
    (
      insert-OldestFirst b (sort_baselines bs) sorted,
      Perm.trans (insert-perm b (sort_baselines bs)) (Perm.cons b perm),
    )

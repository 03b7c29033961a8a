-- ===== src/Regression/Report/Summary/Counts.antt =====
-- The three counts of the summary: each row is counted once, by its change.
use rate_throttle.Prelude.{
  ℕ, suc, ◌+◌, ◌≡◌, refl, Bool, not, ◌&&◌, List, [], ◌∷◌, if◌then◌else◌, arith, length, Bool-cases,
  inl, inr,
}
use rate_throttle.Regression.Double.{Double}
use rate_throttle.Regression.Report.{RegressionRow}
use rate_throttle.Regression.Report.Rows.{is_noise}
use rate_throttle.Regression.Report.Summary.{Tally, tally_loop, tally}

pub count {ℓ} : {A : Type ℓ} → (A → Bool) → List A → ℕ
count p [] = 0
count p (x ∷ xs) = if p x then suc (count p xs) else count p xs

module _ (double : Double) where
  open double use {D, of_ℕ, lt}

  -- A change beyond the noise, and its direction.
  abbrev pub improved : RegressionRow double → Bool
  improved row = not (is_noise double row.pct_change) && lt (of_ℕ 0) row.pct_change

  abbrev pub regressed : RegressionRow double → Bool
  regressed row = not (is_noise double row.pct_change) && not (lt (of_ℕ 0) row.pct_change)

  loop_lem :
      (rows : List (RegressionRow double)) (t : Tally)
      → ((tally_loop double t rows).faster ≡ t.faster + count improved rows)
        × ((tally_loop double t rows).slower ≡ t.slower + count regressed rows)
        × ((tally_loop double t rows).tied
            ≡ t.tied + count (λ row. is_noise double row.pct_change) rows)
  unfolding tally_loop count
  loop_lem [] t = (omega arith, omega arith, omega arith)
  loop_lem (row ∷ rows) t = elim (Bool-cases (is_noise double row.pct_change)) [
    | inl n ↦ ground (arith, n, loop_lem rows (record t { tied = suc t.tied }))
    | inr n ↦ elim (Bool-cases (lt (of_ℕ 0) row.pct_change)) [
      | inl g ↦ ground (arith, n, g, loop_lem rows (record t { faster = suc t.faster }))
      | inr g ↦ ground (arith, n, g, loop_lem rows (record t { slower = suc t.slower }))
    ]
  ]

  total_lem :
      (rows : List (RegressionRow double))
      → count improved rows
          + count regressed rows
          + count (λ row. is_noise double row.pct_change) rows
        ≡ length rows
  unfolding count
  total_lem [] = refl
  total_lem (row ∷ rows) = elim (Bool-cases (is_noise double row.pct_change)) [
    | inl n ↦ ground (arith, n, total_lem rows)
    | inr n ↦ elim (Bool-cases (lt (of_ℕ 0) row.pct_change)) [
      | inl g ↦ ground (arith, n, g, total_lem rows)
      | inr g ↦ ground (arith, n, g, total_lem rows)
    ]
  ]

  -- The summary counts as faster the rows with a positive change beyond the noise, as slower the
  -- other rows beyond the noise, as tied those within it, and the three counts add up to the number
  -- of rows.
  pub tally-counts :
      (rows : List (RegressionRow double))
      → ((tally double rows).faster ≡ count improved rows)
        × ((tally double rows).slower ≡ count regressed rows)
        × ((tally double rows).tied ≡ count (λ row. is_noise double row.pct_change) rows)
        × ((tally double rows).faster + (tally double rows).slower + (tally double rows).tied
            ≡ length rows)
  unfolding tally
  tally-counts rows =
      ground (arith, total_lem rows, loop_lem rows (record { faster = 0; slower = 0; tied = 0 }))

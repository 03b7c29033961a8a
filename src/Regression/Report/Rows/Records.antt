-- ===== src/Regression/Report/Rows/Records.antt =====
-- What a comparison records.
use rate_throttle.Prelude.{
  ℕ, ◌⊎◌, inl, inr, true, false, Bool-cases, ◌==◌, ◌≡◌, refl, sym, List, [], ◌∷◌, ◌++◌, ite, arith,
  map, ap, ◌∙◌, append_assoc, append-nil, if_pos, if_neg,
}
use rate_throttle.Text.{Bytes, codes, bytes_dec}
use rate_throttle.Regression.Double.{Double}
use rate_throttle.Regression.Results.{BenchmarkResult, get_cns}
use rate_throttle.Regression.Report.{Tool, RegressionRow, newline, convert_iter}
use rate_throttle.Regression.Report.Rows.{
  print, draw_group_separator_if_needed, set_header, end_table, print_comparison_row,
  regression_loop, print_regression, pct_change,
}

module _ {D : Type 0} where
  abbrev pub IsOf : Bytes → ℕ → BenchmarkResult D → Type 0
  IsOf operation iterations r = (r.operation ≡ operation) × (r.iterations ≡ iterations)

  abbrev pub NoneOf : Bytes → ℕ → List (BenchmarkResult D) → Type 0
  NoneOf operation iterations [] = Unit
  NoneOf operation iterations (r ∷ rs) =
      (¬ IsOf operation iterations r) × NoneOf operation iterations rs

  -- `v` is the value of the first of the results with the operation and the iterations, or `zero` if
  -- there is none.
  abbrev pub IsFirst : D → List (BenchmarkResult D) → Bytes → ℕ → D → Type 0
  IsFirst zero results operation iterations v =
      (NoneOf operation iterations results × (v ≡ zero))
      ⊎ ((before : List (BenchmarkResult D)) × (r : BenchmarkResult D) × (after : List
            (BenchmarkResult D))
          × (results ≡ before ++ r ∷ after)
          × NoneOf operation iterations before
          × IsOf operation iterations r
          × (v ≡ r.ns_per_op))

  IsFirst-cons :
      (zero : D) (r : BenchmarkResult D) (rs : List (BenchmarkResult D)) (operation : Bytes)
      (iterations : ℕ) (v : D)
      → ¬ IsOf operation iterations r
      → IsFirst zero rs operation iterations v
      → IsFirst zero (r ∷ rs) operation iterations v
  IsFirst-cons zero r rs operation iterations v n (inl (none_of, e)) = inl ((n, none_of), e)
  IsFirst-cons zero r rs operation iterations v n (inr (before, r', after, split, none_of, is, e)) =
      inr (r ∷ before, r', after, ap (◌∷◌ r) split, (n, none_of), is, e)

  get_cns-IsFirst :
      (zero : D) (results : List (BenchmarkResult D)) (operation : Bytes) (iterations : ℕ)
      → IsFirst zero results operation iterations (get_cns zero results operation iterations)
  unfolding get_cns
  get_cns-IsFirst zero [] operation iterations = inl (tt, refl)
  get_cns-IsFirst zero (r ∷ rs) operation iterations =
      let rest = get_cns-IsFirst zero rs operation iterations in
      elim (bytes_dec r.operation operation) [
        | no n ↦
            rw (if_neg (bytes_dec r.operation operation) n _ _)
              (IsFirst-cons zero r rs operation iterations _ (λ h. n h.0) rest)
        | yes e ↦ elim (Bool-cases (r.iterations == iterations)) [
          | inl equal ↦
              let here : r.iterations ≡ iterations = ground (arith, equal) in
              rw (if_pos (bytes_dec r.operation operation) e _ _, equal)
                (inr ([], r, rs, refl, tt, (e, here), refl))
          | inr other ↦
              rw (if_pos (bytes_dec r.operation operation) e _ _, other)
                (IsFirst-cons zero r rs operation iterations _ (λ h. ground (arith, other, h.1))
                  rest)
        ]
      ]

module _ (double : Double) where
  open double use {D, of_ℕ, sub, mul, div, eq}

  -- The comparison of one entry: both values, and the change between them.
  pub compared : List (BenchmarkResult D) → BenchmarkResult D → RegressionRow double
  compared current entry =
      let c = get_cns (of_ℕ 0) current entry.operation entry.iterations in
      record {
        suite = entry.suite;
        operation = entry.operation;
        iteration = entry.iterations;
        baseline_ns = entry.ns_per_op;
        current_ns = c;
        pct_change = pct_change double entry.ns_per_op c;
      }

  separator-results :
      (name : Bytes) (tool : Tool double)
      → (draw_group_separator_if_needed double name tool).results ≡ tool.results
  unfolding draw_group_separator_if_needed
  separator-results name tool = ground arith

  row-results :
      (current : List (BenchmarkResult D)) (entry : BenchmarkResult D) (iteration : Bytes)
      (tool : Tool double)
      → (print_comparison_row double entry.suite entry.operation entry.iterations iteration
          entry.ns_per_op
          (get_cns (of_ℕ 0) current entry.operation entry.iterations)
          tool).results
        ≡ tool.results ++ compared current entry ∷ []
  unfolding print_comparison_row compared
  row-results current entry iteration tool =
      ap (λ (rs : List (RegressionRow double)). rs ++ compared current entry ∷ [])
        (separator-results entry.operation tool)

  end-results : (tool : Tool double) → (end_table double tool).results ≡ tool.results
  unfolding end_table
  end-results tool = refl

  abbrev opened : Bytes → Bytes → Tool double → Tool double
  opened suite header tool =
      set_header double header (
        print double (newline ∷ [])
          (ite (bytes_dec suite (codes " ")) tool (end_table double tool)))

  open-results :
      (suite header : Bytes) (tool : Tool double)
      → (set_header double header (
          print double
            (newline ∷ [])
            (ite (bytes_dec suite (codes " ")) tool (end_table double tool)))).results
        ≡ tool.results
  unfolding set_header
  open-results suite header tool = elim (bytes_dec suite (codes " ")) [
    | yes e ↦ rw (if_pos (bytes_dec suite (codes " ")) e tool (end_table double tool))
    | no n ↦
        rw (if_neg (bytes_dec suite (codes " ")) n tool (end_table double tool)) (end-results tool)
  ]

  switch-results :
      (suite header : Bytes) (tool : Tool double)
      → (ite (bytes_dec suite header) tool (
          set_header double header (
            print double
              (newline ∷ [])
              (ite (bytes_dec suite (codes " ")) tool (end_table double tool))))).results
        ≡ tool.results
  switch-results suite header tool = elim (bytes_dec suite header) [
    | yes e ↦ rw (if_pos (bytes_dec suite header) e tool (opened suite header tool))
    | no n ↦
        rw (if_neg (bytes_dec suite header) n tool (opened suite header tool))
          (open-results suite header tool)
  ]

  loop-results :
      (suite : Bytes) (baseline current : List (BenchmarkResult D)) (tool : Tool double)
      → (regression_loop double suite baseline current tool).1.results
        ≡ tool.results ++ map (compared current) baseline
  unfolding regression_loop
  loop-results suite [] current tool = sym (append-nil tool.results)
  loop-results suite (entry ∷ baseline) current tool =
      loop-results entry.suite baseline current _
      ∙ ap (λ (rs : List (RegressionRow double)). rs ++ map (compared current) baseline)
          (row-results current entry (convert_iter entry.iterations) _
            ∙ ap (λ (rs : List (RegressionRow double)). rs ++ compared current entry ∷ [])
                (switch-results suite entry.suite tool))
      ∙ append_assoc tool.results (compared current entry ∷ []) (map (compared current) baseline)

  pub print_regression-results :
      (baseline current : List (BenchmarkResult D)) (tool : Tool double)
      → (print_regression double baseline current tool).results
        ≡ tool.results ++ map (compared current) baseline
  unfolding print_regression end_table
  print_regression-results baseline current tool =
      ground (arith, loop-results (codes " ") baseline current tool)

  -- the change in percent, without a division if the baseline's value is zero
  abbrev pub IsChange : D → D → D → Type 0
  IsChange b c change =
      ((eq b (of_ℕ 0) ≡ true) × (change ≡ of_ℕ 0))
      ⊎ ((eq b (of_ℕ 0) ≡ false) × (change ≡ mul (div (sub b c) c) (of_ℕ 100)))

  -- The row has the entry's names and value, the value of the first result of the current run with
  -- the same operation and iterations, or zero without one, and the change between the two values.
  pub record IsComparison (current : List (BenchmarkResult D)) (entry : BenchmarkResult D)
      (row : RegressionRow double) : Type 0 where
    pub suite : row.suite ≡ entry.suite
    pub operation : row.operation ≡ entry.operation
    pub iteration : row.iteration ≡ entry.iterations
    pub baseline : row.baseline_ns ≡ entry.ns_per_op
    pub found : IsFirst (of_ℕ 0) current entry.operation entry.iterations row.current_ns
    pub change : IsChange row.baseline_ns row.current_ns row.pct_change

  -- one row for each entry, in order
  abbrev pub AllCompared :
      List (BenchmarkResult D) → List (BenchmarkResult D) → List (RegressionRow double) → Type 0
  AllCompared current [] [] = Unit
  AllCompared current [] (row ∷ rows) = ⊥
  AllCompared current (entry ∷ baseline) [] = ⊥
  AllCompared current (entry ∷ baseline) (row ∷ rows) =
      IsComparison current entry row × AllCompared current baseline rows

  pct_change-IsChange : (b c : D) → IsChange b c (pct_change double b c)
  unfolding pct_change
  pct_change-IsChange b c = elim (Bool-cases (eq b (of_ℕ 0))) [
    | inl e ↦ rw e (inl (refl, refl))
    | inr e ↦ rw e (inr (refl, refl))
  ]

  compared-AllCompared :
      (current baseline : List (BenchmarkResult D))
      → AllCompared current baseline (map (compared current) baseline)
  unfolding compared
  compared-AllCompared current [] = tt
  compared-AllCompared current (entry ∷ baseline) =
      let c = get_cns (of_ℕ 0) current entry.operation entry.iterations in
      (
        record {
          suite = refl;
          operation = refl;
          iteration = refl;
          baseline = refl;
          found = get_cns-IsFirst (of_ℕ 0) current entry.operation entry.iterations;
          change = pct_change-IsChange entry.ns_per_op c;
        },
        compared-AllCompared current baseline,
      )

  -- A comparison adds to the recorded rows one row for each entry of the baseline, in order. The row
  -- has the entry's names and value, the value of the first result of the current run with the same
  -- operation and iterations, or zero without one, and the change from it to the entry's value in
  -- percent of it, or zero if the entry's value is zero.
  pub print_regression-AllCompared :
      (baseline current : List (BenchmarkResult D)) (tool : Tool double)
      → (rows : List (RegressionRow double)) × ((print_regression double baseline current
            tool).results
          ≡ tool.results ++ rows)
        × AllCompared current baseline rows
  print_regression-AllCompared baseline current tool = (
    map (compared current) baseline,
    print_regression-results baseline current tool,
    compared-AllCompared current baseline,
  )

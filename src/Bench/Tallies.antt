-- ===== src/Bench/Tallies.antt =====
-- What a run of the benchmark tool counts and records: each comparison row once, and the results of the
-- custom side under the suite's name.
pub mod Suites
use mathlib.Core.Path.{subst}
use rate_throttle.Prelude.{
  ℕ, suc, ◌+◌, ◌≡◌, refl, sym, ◌∙◌, ap, Bool, true, false, List, [], ◌∷◌, ◌++◌, arith, append_assoc,
  append-nil,
}
use rate_throttle.Prelude.Int.{ℤ}
use rate_throttle.Text.{Bytes}
use rate_throttle.Regression.Double.{Double}
use rate_throttle.Regression.Results.{BenchmarkResult}
use rate_throttle.Regression.Report.{newline}
use rate_throttle.Bench.{
  Kind, Bench, ResultTally, total, emit, transcribe, begin_suite, open_header, end_either,
  close_table, switch_kind, ensure_table, separate,
}
use rate_throttle.Bench.Rows.{
  print_solo_row, print_pair_row, record_result, solo_tier, pair_tier, Call, run_call, run_calls,
  print_one_suite, count_result, change, unsigned,
}

module _ (double : Double) where
  open double use {D, of_ℕ, quotient, div}

  -- The tables change none of these.
  abbrev Kept : Bench double → Bench double → Type 0
  Kept b b' =
      (b'.result_tally ≡ b.result_tally)
      × (b'.recorded ≡ b.recorded)
      × (b'.suite_name ≡ b.suite_name)

  close-Kept : (b : Bench double) → Kept b (close_table double b)
  unfolding close_table end_either emit
  close-Kept b = ground arith

  switch-Kept : (s : Bool) (b : Bench double) → Kept b (switch_kind double s b)
  unfolding switch_kind emit
  switch-Kept s b = ground (arith, close-Kept b)

  ensure-Kept : (s : Bool) (b : Bench double) → Kept b (ensure_table double s b)
  unfolding ensure_table open_header emit transcribe
  ensure-Kept s b = ground (arith, switch-Kept s b)

  separate-Kept : (name : Bytes) (b : Bench double) → Kept b (separate double name b)
  unfolding separate emit
  separate-Kept name b = ground arith

  solo_row-Kept :
      (name label : Bytes) (ns : ℤ) (b : Bench double)
      → Kept b (print_solo_row double name label ns b)
  unfolding print_solo_row emit transcribe
  solo_row-Kept name label ns b =
      let (t, r, n) = ensure-Kept true b in
      let (t', r', n') = separate-Kept name (ensure_table double true b) in (t' ∙ t, r' ∙ r, n' ∙ n)

  total-count_result :
      (pct : D) (t : ResultTally) → total (count_result double pct t) ≡ suc (total t)
  unfolding count_result total
  total-count_result pct t = ground arith

  -- A comparison row is counted, and changes neither the records nor the suite's name.
  Counted : Bench double → Bench double → Type 0
  Counted b b' =
      (total b'.result_tally ≡ suc (total b.result_tally))
      × (b'.recorded ≡ b.recorded)
      × (b'.suite_name ≡ b.suite_name)

  pair_row-Counted :
      (name label : Bytes) (c s : ℤ) (b : Bench double)
      → Counted b (print_pair_row double name label c s b)
  unfolding print_pair_row emit transcribe Counted
  pair_row-Counted name label c s b =
      let b' = separate double name (ensure_table double false b) in
      let (t, r, n) = ensure-Kept false b in
      let (t', r', n') = separate-Kept name (ensure_table double false b) in
      (
        total-count_result (change double c s) b'.result_tally ∙ ap (λ u. suc (total u)) (t' ∙ t),
        r' ∙ r,
        n' ∙ n,
      )

  -- One recorded result.
  pub measured : Bytes → Bytes → ℕ → ℤ → BenchmarkResult D
  measured suite name iteration ns = record {
    suite = suite;
    operation = name;
    total_ns = unsigned ns;
    iterations = iteration;
    ns_per_op = div (quotient ns 1) (of_ℕ iteration);
  }

  -- What a macro should record under a suite, and how many comparison rows it should print.
  abbrev pub records : Bytes → Call → List (BenchmarkResult D)
  records suite (Call.bench name p q r) =
      measured suite name 10_000 p.0
      ∷ measured suite name 100_000 q.0
      ∷ measured suite name 1_000_000 r.0
      ∷ []
  records suite (Call.bench_solo name p q r) =
      measured suite name 10_000 p
      ∷ measured suite name 100_000 q
      ∷ measured suite name 1_000_000 r
      ∷ []
  records suite (Call.bench_custom name p q r) =
      measured suite name 1 p.0 ∷ measured suite name 10 q.0 ∷ measured suite name 100 r.0 ∷ []
  records suite (Call.bench_solo_custom name p q r) =
      measured suite name 100 p ∷ measured suite name 1_000 q ∷ measured suite name 10_000 r ∷ []

  abbrev pub comparisons : Call → ℕ
  comparisons (Call.bench name p q r) = 3
  comparisons (Call.bench_solo name p q r) = 0
  comparisons (Call.bench_custom name p q r) = 3
  comparisons (Call.bench_solo_custom name p q r) = 0

  -- The effect of a part of a run: `n` more comparisons, and these records.
  Adds : ℕ → List (BenchmarkResult D) → Bench double → Bench double → Type 0
  Adds n rs b b' =
      (total b'.result_tally ≡ total b.result_tally + n)
      × (b'.recorded ≡ b.recorded ++ rs)
      × (b'.suite_name ≡ b.suite_name)

  Adds-trans :
      (m n : ℕ) (rs ss : List (BenchmarkResult D)) (a b c : Bench double)
      → Adds m rs a b
      → Adds n ss b c
      → Adds (m + n) (rs ++ ss) a c
  unfolding Adds
  Adds-trans m n rs ss a b c (t, r, s) (t', r', s') =
      (omega arith, r' ∙ ap (λ xs. xs ++ ss) r ∙ append_assoc a.recorded rs ss, s' ∙ s)

  solo_tier-Adds :
      (name : Bytes) (iteration : ℕ) (label : Bytes) (ns : ℤ) (b : Bench double)
      → Adds 0
          (measured b.suite_name name iteration ns ∷ [])
          b
          (solo_tier double name iteration label ns b)
  unfolding solo_tier record_result Adds measured
  solo_tier-Adds name iteration label ns b =
      let (t, r, n) = solo_row-Kept name label ns (record_result double name iteration ns b) in
      (omega (arith, ap total t), r, n)

  pair_tier-Adds :
      (name : Bytes) (iteration : ℕ) (label : Bytes) (c s : ℤ) (b : Bench double)
      → Adds 1
          (measured b.suite_name name iteration c ∷ [])
          b
          (pair_tier double name iteration label (c, s) b)
  unfolding pair_tier record_result Adds measured Counted
  pair_tier-Adds name iteration label c s b =
      let (t, r, n) = pair_row-Counted name label c s (record_result double name iteration c b) in
      (omega (arith, t), r, n)

-- ===== src/Bench/Tallies/Suites.antt =====
-- What the macros of a suite add to the tally and to the records.
use mathlib.Core.Path.{subst}
use rate_throttle.Prelude.{
  ℕ, ◌+◌, ◌≡◌, refl, sym, ◌∙◌, ap, false, List, [], ◌∷◌, ◌++◌, arith, append-nil,
}
use rate_throttle.Prelude.Int.{ℤ}
use rate_throttle.Text.{Bytes}
use rate_throttle.Regression.Double.{Double}
use rate_throttle.Regression.Results.{BenchmarkResult}
use rate_throttle.Regression.Report.{newline}
use rate_throttle.Bench.{Kind, Bench, total, emit, begin_suite}
use rate_throttle.Bench.Rows.{solo_tier, pair_tier, Call, run_call, run_calls, print_one_suite}
use rate_throttle.Bench.Tallies.{
  close-Kept, measured, records, comparisons, Adds, Adds-trans, solo_tier-Adds, pair_tier-Adds,
}

module _ (double : Double) where
  open double use {D, of_ℕ, quotient, div}

  -- The same under a suite of a known name.
  solo_under :
      (suite name : Bytes) (iteration : ℕ) (label : Bytes) (ns : ℤ) (b : Bench double)
      → b.suite_name ≡ suite
      → Adds double 0
          (measured double suite name iteration ns ∷ [])
          b
          (solo_tier double name iteration label ns b)
  solo_under suite name iteration label ns b e =
      subst
        (λ x.
          Adds double 0 (measured double x name iteration ns ∷ []) b
            (solo_tier double name iteration label ns b))
        e (solo_tier-Adds double name iteration label ns b)

  pair_under :
      (suite name : Bytes) (iteration : ℕ) (label : Bytes) (p : ℤ × ℤ) (b : Bench double)
      → b.suite_name ≡ suite
      → Adds double 1
          (measured double suite name iteration p.0 ∷ [])
          b
          (pair_tier double name iteration label p b)
  pair_under suite name iteration label (c, s) b e =
      subst
        (λ x.
          Adds double 1 (measured double x name iteration c ∷ []) b
            (pair_tier double name iteration label (c, s) b))
        e (pair_tier-Adds double name iteration label c s b)

  named :
      (n : ℕ) (rs : List (BenchmarkResult D)) (b b' : Bench double)
      → Adds double n rs b b'
      → b'.suite_name ≡ b.suite_name
  unfolding Adds
  named n rs b b' (t, r, s) = s

  three_solo :
      (suite name : Bytes) (i j k : ℕ) (l m n : Bytes) (p q r : ℤ) (b : Bench double)
      → b.suite_name ≡ suite
      → Adds double 0
          (measured double suite name i p
            ∷ measured double suite name j q
            ∷ measured double suite name k r
            ∷ [])
          b
          (solo_tier double name k n r
            (solo_tier double name j m q (solo_tier double name i l p b)))
  three_solo suite name i j k l m n p q r b e =
      let b1 = solo_tier double name i l p b in
      let b2 = solo_tier double name j m q b1 in
      let h1 = solo_under suite name i l p b e in
      let e1 = named 0 _ b b1 h1 ∙ e in
      let h2 = solo_under suite name j m q b1 e1 in
      let e2 = named 0 _ b1 b2 h2 ∙ e1 in
      Adds-trans double 0 0 _ _ b b2 (solo_tier double name k n r b2)
        (Adds-trans double 0 0 _ _ b b1 b2 h1 h2) (solo_under suite name k n r b2 e2)

  three_pair :
      (suite name : Bytes) (i j k : ℕ) (l m n : Bytes) (p q r : ℤ × ℤ) (b : Bench double)
      → b.suite_name ≡ suite
      → Adds double 3
          (measured double suite name i p.0
            ∷ measured double suite name j q.0
            ∷ measured double suite name k r.0
            ∷ [])
          b
          (pair_tier double name k n r
            (pair_tier double name j m q (pair_tier double name i l p b)))
  three_pair suite name i j k l m n p q r b e =
      let b1 = pair_tier double name i l p b in
      let b2 = pair_tier double name j m q b1 in
      let h1 = pair_under suite name i l p b e in
      let e1 = named 1 _ b b1 h1 ∙ e in
      let h2 = pair_under suite name j m q b1 e1 in
      let e2 = named 1 _ b1 b2 h2 ∙ e1 in
      Adds-trans double 2 1 _ _ b b2 (pair_tier double name k n r b2)
        (Adds-trans double 1 1 _ _ b b1 b2 h1 h2) (pair_under suite name k n r b2 e2)

  call-Adds :
      (suite : Bytes) (call : Call) (b : Bench double)
      → b.suite_name ≡ suite
      → Adds double (comparisons double call) (records double suite call) b (run_call double call b)
  unfolding run_call
  call-Adds suite (Call.bench name p q r) b e = three_pair suite name _ _ _ _ _ _ p q r b e
  call-Adds suite (Call.bench_solo name p q r) b e = three_solo suite name _ _ _ _ _ _ p q r b e
  call-Adds suite (Call.bench_custom name p q r) b e = three_pair suite name _ _ _ _ _ _ p q r b e
  call-Adds suite (Call.bench_solo_custom name p q r) b e =
      three_solo suite name _ _ _ _ _ _ p q r b e

  abbrev pub all_records : Bytes → List Call → List (BenchmarkResult D)
  all_records suite [] = []
  all_records suite (call ∷ calls) = records double suite call ++ all_records suite calls

  abbrev pub all_comparisons : List Call → ℕ
  all_comparisons [] = 0
  all_comparisons (call ∷ calls) = comparisons double call + all_comparisons calls

  calls-Adds :
      (suite : Bytes) (calls : List Call) (b : Bench double)
      → b.suite_name ≡ suite
      → Adds double (all_comparisons calls) (all_records suite calls) b (run_calls double calls b)
  unfolding run_calls
  calls-Adds suite [] b e = unfold Adds in (omega arith, sym (append-nil b.recorded), refl)
  calls-Adds suite (call ∷ calls) b e =
      let h = call-Adds suite call b e in
      Adds-trans double _ _ _ _ b (run_call double call b)
        (run_calls double calls (run_call double call b)) h
        (calls-Adds suite calls (run_call double call b)
          (named _ _ b (run_call double call b) h ∙ e))

  -- A suite adds to the total of the tally one for each comparison row of its macros, and to the
  -- records the results of its macros under the suite's name, in order.
  pub suite-adds :
      (name : Bytes) (calls : List Call) (b : Bench double)
      → (total (print_one_suite double name calls b).result_tally
          ≡ total b.result_tally + all_comparisons calls)
        × ((print_one_suite double name calls b).recorded ≡ b.recorded ++ all_records name calls)
  unfolding print_one_suite begin_suite emit Adds
  suite-adds name calls b =
      let started = begin_suite double name (emit double Kind.outside false (newline ∷ []) b) in
      let (t, r, n) = calls-Adds name calls started refl in
      let (t', r', n') = close-Kept double (run_calls double calls started) in
      (ap total t' ∙ t, r' ∙ r)

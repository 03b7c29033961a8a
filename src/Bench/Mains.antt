-- ===== src/Bench/Mains.antt =====
-- The tables that a run of the benchmark tool prints.
use rate_throttle.Prelude.{
  refl, Bool, true, false, List, [], ◌∷◌, none, ◌==◌, Bool-cases, inl, inr, ite,
}
use rate_throttle.Text.{Bytes, codes, bytes_dec}
use rate_throttle.Regression.Double.{Double}
use rate_throttle.Bench.{Bench, total, emit, transcribe, title_case}
use rate_throttle.Bench.Rows.{print_one_suite}
use rate_throttle.Bench.Tables.{InOrder, add-InOrder}
use rate_throttle.Bench.Tables.Steps.{suite-InOrder}
use rate_throttle.Bench.Runs.{
  BenchSuite, Done, summarize, finish, print_all, matches, bench_scan, bench_main, lower_case,
}

module _ (double : Double) where
  summarize-InOrder :
      (b : Bench double) → InOrder none b.lines → InOrder none (summarize double b).lines
  unfolding summarize transcribe emit
  summarize-InOrder b h = elim (Bool-cases (total b.result_tally == 0)) [
    | inl e ↦ rw (e) h
    | inr e ↦ rw (e) (add-InOrder none none b.lines _ h refl)
  ]

  finish-InOrder :
      (b : Bench double) → InOrder none b.lines → InOrder none (finish double b).bench.lines
  unfolding finish
  finish-InOrder b h = summarize-InOrder b h

  all-InOrder :
      (suites : List BenchSuite) (b : Bench double)
      → InOrder none b.lines
      → InOrder none (print_all double suites b).lines
  unfolding print_all
  all-InOrder [] b h = h
  all-InOrder (s ∷ suites) b h =
      all-InOrder suites (print_one_suite double s.name s.calls b)
        (suite-InOrder double s.name s.calls b h)

  scan-InOrder :
      (requested lowered : Bytes) (found : Bool) (suites : List BenchSuite) (b : Bench double)
      → InOrder none b.lines
      → InOrder none (bench_scan double requested lowered found suites b).bench.lines
  unfolding bench_scan emit
  scan-InOrder requested lowered true [] b h = finish-InOrder b h
  scan-InOrder requested lowered false [] b h = add-InOrder none none b.lines _ h refl
  scan-InOrder requested lowered found (s ∷ suites) b h =
      let ran = print_one_suite double s.name s.calls b in
      let h' = suite-InOrder double s.name s.calls b h in
      elim (Bool-cases (matches double lowered s.name)) [
        | inl e ↦ rw (e) (finish-InOrder ran h')
        | inr e ↦ elim (Bool-cases (matches double lowered s.id)) [
          | inl f ↦ rw (e, f) (finish-InOrder ran h')
          | inr f ↦ elim (Bool-cases (matches double lowered s.category)) [
            | inl g ↦ rw (e, f, g) (scan-InOrder requested lowered true suites ran h')
            | inr g ↦ rw (e, f, g) (scan-InOrder requested lowered found suites b h)
          ]
        ]
      ]

  ite-InOrder :
      {P : Type 0} (d : Dec P) (x y : Done double)
      → InOrder none x.bench.lines
      → InOrder none y.bench.lines
      → InOrder none (ite d x y).bench.lines
  ite-InOrder (yes e) x y h k = h
  ite-InOrder (no n) x y h k = k

  request-InOrder :
      (requested : Bytes) (args : List Bytes) (suites : List BenchSuite) (b : Bench double)
      → InOrder none b.lines
      → InOrder none (bench_main double (requested ∷ args) suites b).bench.lines
  unfolding bench_main
  request-InOrder requested args suites b h =
      let shown : Done double = record { status = 0; bench = b; files = none } in
      ite-InOrder (bytes_dec requested (codes "-h")) shown _ h (
        ite-InOrder (bytes_dec requested (codes "--help")) shown _ h (
          ite-InOrder (bytes_dec requested (codes "list")) shown _ h
            (scan-InOrder requested (lower_case (title_case requested)) false suites b h)))

  -- If the lines printed so far are in order with no table open, then so are those behind any run of
  -- the tool, whatever its arguments: each title, separator and row stands in an open table of its
  -- own kind, a table is opened only where none is open, and every table is closed.
  pub bench_main-InOrder :
      (args : List Bytes) (suites : List BenchSuite) (b : Bench double)
      → InOrder none b.lines
      → InOrder none (bench_main double args suites b).bench.lines
  bench_main-InOrder [] suites b h =
      unfold bench_main in finish-InOrder (print_all double suites b) (all-InOrder suites b h)
  bench_main-InOrder (requested ∷ args) suites b h = request-InOrder requested args suites b h

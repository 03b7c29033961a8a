-- ===== src/TestTool/Tests.antt =====
-- The theorems on the test tool at concrete inputs.
use rate_throttle.Prelude.{
  ◌+◌, ◌≡◌, refl, true, false, List, [], ◌∷◌, ◌++◌, map, arith, length, ℕ_discrete,
}
use rate_throttle.Text.{Bytes, codes, bytes_dec, to_upper, to_lower}
use rate_throttle.TestTool.{
  Counters, Outcome, Check, TestSuite, Source, Event, run_tests, test_main, is_exact, prettify,
  lower,
}
use rate_throttle.TestTool.Counting.{made, raises, failed, held, sum_over, run_tests-counts}
use rate_throttle.TestTool.Dispatch.{main-exact, main-category, in_category, no_exact_answer}

-- a test that passes, one that fails a check, and one that throws
abbrev bodies : List (List Check)
bodies =
    (Check.chk true ∷ Check.chk_throws Outcome.expected ∷ [])
    ∷ (Check.chk true ∷ Check.chk_throws Outcome.no_throw ∷ [])
    ∷ (Check.chk true ∷ Check.raise ∷ Check.chk false ∷ [])
    ∷ []

abbrev zeros : Counters
zeros = record { pass = 0; fail = 0; total = 0 }

run_tests-counts_example :
    ((run_tests bodies zeros).pass ≡ 0 + sum_over (λ b. held (made b)) bodies)
    × ((run_tests bodies zeros).fail
        ≡ 0 + sum_over (λ b. failed (made b)) bodies + sum_over raises bodies)
    × ((run_tests bodies zeros).total ≡ 0 + sum_over (λ b. length (made b)) bodies)
run_tests-counts_example = run_tests-counts bodies zeros

abbrev source : Bytes → Bytes → Source
source directory stem = record { directory = directory; stem = stem; run = bodies }

abbrev sources : List Source
sources =
    source (codes "unit") (codes "basic_behavior")
    ∷ source (codes "stress") (codes "burst")
    ∷ source (codes "unit") (codes "eviction")
    ∷ []

abbrev suite : Bytes → Bytes → Bytes → TestSuite
suite id category name = record { id = id; category = category; name = name; run = bodies }

abbrev first_suite : TestSuite
first_suite = suite (codes "U1") (codes "unit") (codes "Basic Behavior")

abbrev second_suite : TestSuite
second_suite = suite (codes "U2") (codes "unit") (codes "Eviction")

main-exact_example : test_main (codes "eviction" ∷ []) (first_suite ∷ second_suite ∷ []) ≡ (
  0,
  map Event.ran (in_category (lower (prettify (codes "eviction"))) (first_suite ∷ []))
      ++ Event.ran second_suite ∷ Event.stats ∷ [],
)
unfolding is_exact lower prettify bytes_dec ℕ_discrete to_lower to_upper
main-exact_example =
    main-exact (codes "eviction") [] (first_suite ∷ []) [] second_suite
      (ground arith, ground arith, ground arith) (refl, tt) refl

main-category_example :
    test_main (codes "unit" ∷ []) (first_suite ∷ second_suite ∷ [])
    ≡ no_exact_answer
        (codes "unit")
        false
        (in_category (lower (prettify (codes "unit"))) (first_suite ∷ second_suite ∷ []))
unfolding is_exact lower prettify bytes_dec ℕ_discrete to_lower to_upper
main-category_example =
    main-category (codes "unit") [] (first_suite ∷ second_suite ∷ [])
      (ground arith, ground arith, ground arith) (refl, (refl, tt))

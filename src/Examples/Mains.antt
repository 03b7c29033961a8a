-- ===== src/Examples/Mains.antt =====
-- examples/example_main.cpp: the choice of the suites to run.
use rate_throttle.Prelude.{ℕ, List, [], ◌∷◌, ◌++◌, if◌then◌else◌, ite, Bool, true, false}
use rate_throttle.Text.{Bytes, codes, bytes_dec, null}
use rate_throttle.Regression.Double.{Double}
use rate_throttle.Regression.Report.{Piece, text, newline}
use rate_throttle.Examples.{ExampleSuite, prettify, lower}
use rate_throttle.Examples.Printing.{
  run_suites, print_all_example_suite, print_example_suite_list, print_one_suite,
  print_example_usage,
}

unfoldable pub is_exact_suite : Bytes → ExampleSuite → Bool
is_exact_suite requested suite =
    ite (bytes_dec (lower suite.name) requested) true
      (ite (bytes_dec (lower suite.id) requested) true false)

unfoldable pub is_of_category : Bytes → ExampleSuite → Bool
is_of_category requested suite = ite (bytes_dec (lower suite.category) requested) true false

module _ (double : Double) where
  open double use {D}

  -- the loop of main, and what follows it
  unfoldable pub example_scan :
      Bytes → Bytes → List ExampleSuite → List ExampleSuite → D → ℕ × List Piece
  unfolding is_exact_suite is_of_category run_suites print_one_suite
  example_scan requested requested_lower matches [] elapsed_ms =
      if null matches
      then (
        1,
        newline ∷ text (codes "Unknown example suite: " ++ requested) ∷ newline ∷ newline ∷ [],
      )
      else (0, run_suites double matches 1 elapsed_ms)
  example_scan requested requested_lower matches (suite ∷ suites) elapsed_ms =
      let found =
        example_scan requested requested_lower (matches ++ suite ∷ []) suites elapsed_ms in
      let rest = example_scan requested requested_lower matches suites elapsed_ms in
      if is_exact_suite requested_lower suite
      then (0, print_one_suite suite)
      else if is_of_category requested_lower suite
      then found
      else rest

  -- main, without argv[0]: the exit status, and what is printed
  unfoldable pub example_main : List Bytes → List ExampleSuite → D → ℕ × List Piece
  unfolding example_scan print_all_example_suite print_example_suite_list print_example_usage
  example_main [] suites elapsed_ms = (0, print_all_example_suite double suites elapsed_ms)
  example_main (requested ∷ args) suites elapsed_ms =
      ite (bytes_dec requested (codes "-h")) (0, print_example_usage)
        (ite (bytes_dec requested (codes "--help")) (0, print_example_usage)
          (ite (bytes_dec requested (codes "list")) (0, print_example_suite_list suites)
            (example_scan requested (lower (prettify requested)) [] suites elapsed_ms)))

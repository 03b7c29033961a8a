-- ===== src/Examples/Tests.antt =====
-- The theorems on the example tool at concrete inputs.
use rate_throttle.Prelude.{◌≡◌, refl, List, [], ◌∷◌, ℕ_discrete, arith}
use rate_throttle.Text.{codes, bytes_dec, to_upper, to_lower}
use rate_throttle.TestTool.{prettify as test_prettify, lower as test_lower, prettify_loop}
use rate_throttle.Regression.Double.Numbers.{numbers}
use rate_throttle.Regression.Report.{newline}
use rate_throttle.Examples.{ExampleSuite, ExampleSource, prettify, lower}
use rate_throttle.Examples.Printing.{StatRow, stat, print_one_suite}
use rate_throttle.Examples.Mains.{example_main, is_exact_suite}
use rate_throttle.Examples.Dispatch.{
  of_category, matches_answer, example_main-named, example_main-category,
}

abbrev sources : List ExampleSource
sources =
    record { directory = codes "misuse"; stem = codes "zero_limit"; run = newline ∷ [] }
    ∷ record { directory = codes "patterns"; stem = codes "per_client"; run = [] }
    ∷ record { directory = codes "misuse"; stem = codes "ignoring"; run = [] }
    ∷ []

abbrev zero_limit : ExampleSuite
zero_limit = record {
  id = codes "M1";
  category = codes "misuse";
  name = codes "Zero limit";
  run = newline ∷ [];
}

abbrev ignoring : ExampleSuite
ignoring = record { id = codes "M2"; category = codes "misuse"; name = codes "Ignoring"; run = [] }

abbrev counts : List StatRow
counts = stat (codes "Suites") (codes "12") ∷ stat (codes "Categories") (codes "5") ∷ []

example_main-named_example :
    example_main numbers (codes "m2" ∷ []) (zero_limit ∷ ignoring ∷ []) 0
    ≡ (0, print_one_suite ignoring)
unfolding is_exact_suite bytes_dec test_prettify test_lower prettify_loop to_upper to_lower
    ℕ_discrete
example_main-named_example =
    example_main-named numbers (codes "m2") [] (zero_limit ∷ []) [] ignoring 0
      (ground arith, ground arith, ground arith) (refl, tt) refl

example_main-category_example :
    example_main numbers (codes "misuse" ∷ []) (zero_limit ∷ ignoring ∷ []) 0
    ≡ matches_answer numbers
        (codes "misuse")
        (of_category (lower (prettify (codes "misuse"))) (zero_limit ∷ ignoring ∷ []))
        0
unfolding is_exact_suite bytes_dec test_prettify test_lower prettify_loop to_upper to_lower
    ℕ_discrete
example_main-category_example =
    example_main-category numbers (codes "misuse") [] (zero_limit ∷ ignoring ∷ []) 0
      (ground arith, ground arith, ground arith) (refl, (refl, tt))

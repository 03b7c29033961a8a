-- ===== src/Examples/Dispatch.antt =====
-- examples/example_main.cpp: which examples a request runs.
use rate_throttle.Prelude.{
  ℕ, ◌≡◌, refl, ◌≢◌, ◌∙◌, true, false, List, [], ◌∷◌, ◌++◌, if◌then◌else◌, if_neg, Bool-cases, inl,
  inr, append_assoc, append-nil,
}
use rate_throttle.Text.{Bytes, codes, bytes_dec, null}
use rate_throttle.Regression.Double.{Double}
use rate_throttle.Regression.Report.{Piece, text, newline}
use rate_throttle.Examples.{ExampleSuite, prettify, lower}
use rate_throttle.Examples.Printing.{run_suites, print_one_suite}
use rate_throttle.Examples.Mains.{is_exact_suite, is_of_category, example_scan, example_main}

-- The suites of the requested category, in order.
abbrev pub of_category : Bytes → List ExampleSuite → List ExampleSuite
of_category requested [] = []
of_category requested (s ∷ suites) =
    if is_of_category requested s
    then s ∷ of_category requested suites
    else of_category requested suites

-- No suite has the requested name or id.
abbrev pub NoneNamed : Bytes → List ExampleSuite → Type 0
NoneNamed requested [] = Unit
NoneNamed requested (s ∷ suites) = (is_exact_suite requested s ≡ false) × NoneNamed requested suites

module _ (double : Double) where
  open double use {D}

  scan-named :
      (requested lowered : Bytes) (matches before after : List ExampleSuite) (suite : ExampleSuite)
      (elapsed_ms : D)
      → NoneNamed lowered before
      → is_exact_suite lowered suite ≡ true
      → example_scan double requested lowered matches (before ++ suite ∷ after) elapsed_ms
        ≡ (0, print_one_suite suite)
  unfolding example_scan
  scan-named requested lowered matches [] after suite elapsed_ms n e = rw (e)
  scan-named requested lowered matches (s ∷ before) after suite elapsed_ms (k, n) e =
      elim (Bool-cases (is_of_category lowered s)) [
        | inl c ↦ rw (
          k,
          c,
          scan-named requested lowered (matches ++ s ∷ []) before after suite elapsed_ms n e,
        )
        | inr c ↦ rw (k, c, scan-named requested lowered matches before after suite elapsed_ms n e)
      ]

  -- What a request is answered that is the name or id of no suite.
  abbrev pub matches_answer : Bytes → List ExampleSuite → D → ℕ × List Piece
  matches_answer requested matches elapsed_ms =
      if null matches
      then (
        1,
        newline ∷ text (codes "Unknown example suite: " ++ requested) ∷ newline ∷ newline ∷ [],
      )
      else (0, run_suites double matches 1 elapsed_ms)

  scan-matches :
      (requested lowered : Bytes) (matches suites : List ExampleSuite) (elapsed_ms : D)
      → NoneNamed lowered suites
      → example_scan double requested lowered matches suites elapsed_ms
        ≡ matches_answer requested (matches ++ of_category lowered suites) elapsed_ms
  unfolding example_scan
  scan-matches requested lowered matches [] elapsed_ms n = rw (append-nil matches)
  scan-matches requested lowered matches (s ∷ suites) elapsed_ms (k, n) =
      elim (Bool-cases (is_of_category lowered s)) [
        | inl c ↦
            rw (k, c)
              (scan-matches requested lowered (matches ++ s ∷ []) suites elapsed_ms n
                ∙ rw (append_assoc matches (s ∷ []) (of_category lowered suites)) refl)
        | inr c ↦ rw (k, c) (scan-matches requested lowered matches suites elapsed_ms n)
      ]

  -- An argument that is none of the options.
  abbrev pub IsAsked : Bytes → Type 0
  IsAsked requested =
      (requested ≢ codes "-h") × (requested ≢ codes "--help") × (requested ≢ codes "list")

  main-asked :
      (requested : Bytes) (args : List Bytes) (suites : List ExampleSuite) (elapsed_ms : D)
      → IsAsked requested
      → example_main double (requested ∷ args) suites elapsed_ms
        ≡ example_scan double requested (lower (prettify requested)) [] suites elapsed_ms
  unfolding example_main
  main-asked requested args suites elapsed_ms (h, help, l) =
      if_neg (bytes_dec requested (codes "-h")) h _ _
      ∙ if_neg (bytes_dec requested (codes "--help")) help _ _
      ∙ if_neg (bytes_dec requested (codes "list")) l _ _

  -- A request that is none of the options, and that is the name or the id of an example and of none
  -- before it, runs this example alone, with status 0, whatever the categories of the others are.
  pub example_main-named :
      (requested : Bytes) (args : List Bytes) (before after : List ExampleSuite)
      (suite : ExampleSuite) (elapsed_ms : D)
      → IsAsked requested
      → NoneNamed (lower (prettify requested)) before
      → is_exact_suite (lower (prettify requested)) suite ≡ true
      → example_main double (requested ∷ args) (before ++ suite ∷ after) elapsed_ms
        ≡ (0, print_one_suite suite)
  example_main-named requested args before after suite elapsed_ms r n e =
      main-asked requested args (before ++ suite ∷ after) elapsed_ms r
      ∙ scan-named requested (lower (prettify requested)) [] before after suite elapsed_ms n e

  -- A request that is none of the options, nor the name or the id of an example, runs the examples
  -- whose category it is, in order, with status 0; if there is none, it is reported as unknown, with
  -- status 1.
  pub example_main-category :
      (requested : Bytes) (args : List Bytes) (suites : List ExampleSuite) (elapsed_ms : D)
      → IsAsked requested
      → NoneNamed (lower (prettify requested)) suites
      → example_main double (requested ∷ args) suites elapsed_ms
        ≡ matches_answer requested (of_category (lower (prettify requested)) suites) elapsed_ms
  example_main-category requested args suites elapsed_ms r n =
      main-asked requested args suites elapsed_ms r
      ∙ scan-matches requested (lower (prettify requested)) [] suites elapsed_ms n

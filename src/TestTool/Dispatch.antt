-- ===== src/TestTool/Dispatch.antt =====
-- tests/custom/test_main.cpp: which suites a request runs.
use rate_throttle.Prelude.{
  ℕ, ◌≡◌, refl, Bool, true, false, ◌||◌, List, [], ◌∷◌, ◌++◌, map, if◌then◌else◌, arith, not,
  if_neg, ◌≢◌, ◌∙◌, Bool-cases, inl, inr,
}
use rate_throttle.Text.{Bytes, null, codes, bytes_dec}
use rate_throttle.TestTool.{
  TestSuite, Event, is_exact, is_category, scan, prettify, lower, test_main,
}

-- The suites of the requested category, in order.
abbrev pub in_category : Bytes → List TestSuite → List TestSuite
in_category requested [] = []
in_category requested (s ∷ suites) =
    if is_category requested s
    then s ∷ in_category requested suites
    else in_category requested suites

-- No suite has the requested name or id.
abbrev pub NoneExact : Bytes → List TestSuite → Type 0
NoneExact requested [] = Unit
NoneExact requested (s ∷ suites) = (is_exact requested s ≡ false) × NoneExact requested suites

scan-exact :
    (requested lowered : Bytes) (found : Bool) (before after : List TestSuite) (suite : TestSuite)
    → NoneExact lowered before
    → is_exact lowered suite ≡ true
    → scan requested lowered found (before ++ suite ∷ after)
      ≡ (0, map Event.ran (in_category lowered before) ++ Event.ran suite ∷ Event.stats ∷ [])
unfolding scan
scan-exact requested lowered found [] after suite n e = rw (e)
scan-exact requested lowered found (s ∷ before) after suite (k, n) e =
    elim (Bool-cases (is_category lowered s)) [
      | inl c ↦ rw (k, c, scan-exact requested lowered true before after suite n e)
      | inr c ↦ rw (k, c, scan-exact requested lowered found before after suite n e)
    ]

abbrev pub no_exact_answer : Bytes → Bool → List TestSuite → ℕ × List Event
no_exact_answer requested found suites =
    if found || not (null suites)
    then (0, map Event.ran suites ++ Event.stats ∷ [])
    else (1, Event.unknown requested ∷ [])

scan-category :
    (requested lowered : Bytes) (found : Bool) (suites : List TestSuite)
    → NoneExact lowered suites
    → scan requested lowered found suites
      ≡ no_exact_answer requested found (in_category lowered suites)
unfolding scan
scan-category requested lowered true [] n = refl
scan-category requested lowered false [] n = refl
scan-category requested lowered found (s ∷ suites) (k, n) =
    elim (Bool-cases (is_category lowered s)) [
      | inl c ↦ ground (arith, k, c, scan-category requested lowered true suites n)
      | inr c ↦ rw (k, c, scan-category requested lowered found suites n)
    ]

-- An argument that is none of the options.
abbrev pub IsRequest : Bytes → Type 0
IsRequest requested =
    (requested ≢ codes "-h") × (requested ≢ codes "--help") × (requested ≢ codes "list")

main-scan :
    (requested : Bytes) (args : List Bytes) (suites : List TestSuite)
    → IsRequest requested
    → test_main (requested ∷ args) suites ≡ scan requested (lower (prettify requested)) false suites
unfolding test_main
main-scan requested args suites (h, help, l) =
    if_neg (bytes_dec requested (codes "-h")) h _ _
    ∙ if_neg (bytes_dec requested (codes "--help")) help _ _
    ∙ if_neg (bytes_dec requested (codes "list")) l _ _

-- A request that is none of the options, and that is the name or the id of a suite and of none
-- before it, runs the suites before it whose category is requested, then this suite, prints the
-- statistics, and ends with status 0.
pub main-exact :
    (requested : Bytes) (args : List Bytes) (before after : List TestSuite) (suite : TestSuite)
    → IsRequest requested
    → NoneExact (lower (prettify requested)) before
    → is_exact (lower (prettify requested)) suite ≡ true
    → test_main (requested ∷ args) (before ++ suite ∷ after) ≡ (
      0,
      map Event.ran (in_category (lower (prettify requested)) before)
          ++ Event.ran suite ∷ Event.stats ∷ [],
    )
main-exact requested args before after suite r n e =
    main-scan requested args (before ++ suite ∷ after) r
    ∙ scan-exact requested (lower (prettify requested)) false before after suite n e

-- A request that is none of the options, nor the name or the id of a suite, runs the suites whose
-- category it is, prints the statistics and ends with status 0; if there is no such suite it is
-- reported as unknown with status 1.
pub main-category :
    (requested : Bytes) (args : List Bytes) (suites : List TestSuite)
    → IsRequest requested
    → NoneExact (lower (prettify requested)) suites
    → test_main (requested ∷ args) suites
      ≡ no_exact_answer requested false (in_category (lower (prettify requested)) suites)
main-category requested args suites r n =
    main-scan requested args suites r
    ∙ scan-category requested (lower (prettify requested)) false suites n

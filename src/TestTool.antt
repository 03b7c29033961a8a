-- ===== src/TestTool.antt =====
-- tests/custom: the test tool's registry (support/registry.h), its counters and macros
-- (support/helpers.h, support/macros.h), and the choice of the suites to run (test_main.cpp). Paths are
-- given by the two names that the registrar takes from them, and a suite's function by the checks
-- that it makes. The counters are numbers without a bound.
pub mod Counting
pub mod Ids
pub mod Dispatch
mod Tests
use rate_throttle.Prelude.{
  ℕ, zero, suc, ◌+◌, Bool, true, false, ◌&&◌, ◌||◌, not, List, [], ◌∷◌, ◌++◌, map, ite,
  if◌then◌else◌, ◌==◌,
}
use rate_throttle.Text.{Bytes, codes, bytes_dec, null, to_upper, to_lower}
use rate_throttle.Text.Decimal.{to_string}

-- the loop of prettify
unfoldable pub prettify_loop : Bool → Bytes → Bytes
prettify_loop first_letter [] = []
prettify_loop first_letter (c ∷ text) =
    let rest = prettify_loop false text in
    let rest' = prettify_loop true text in
    if first_letter then to_upper c ∷ rest else if c == b'_' then b' ' ∷ rest' else c ∷ rest

unfoldable pub prettify : Bytes → Bytes
unfolding prettify_loop
prettify text = prettify_loop true text

unfoldable pub lower : Bytes → Bytes
lower str = map to_lower str

-- pass, fail and total
pub record Counters : Type 0 where
  pub pass : ℕ
  pub fail : ℕ
  pub total : ℕ

-- what the expression of a CHK_THROWS does
pub data Outcome : Type 0 where
  expected : Outcome
  wrong_type : Outcome
  no_throw : Outcome

-- what a test function does next: one of the two macros, or an exception of its own
pub data Check : Type 0 where
  chk : Bool → Check
  chk_throws : Outcome → Check
  raise : Check

unfoldable pub count_check : Bool → Counters → Counters
count_check holds t =
    if holds
    then record t { pass = suc t.pass; total = suc t.total }
    else record t { fail = suc t.fail; total = suc t.total }

unfoldable pub threw : Outcome → Bool
threw Outcome.expected = true
threw Outcome.wrong_type = false
threw Outcome.no_throw = false

-- a test function: the counters behind it, and whether it was left by an exception
unfoldable pub call : List Check → Counters → Counters × Bool
unfolding count_check threw
call [] t = (t, false)
call (Check.chk holds ∷ body) t = call body (count_check holds t)
call (Check.chk_throws o ∷ body) t = call body (count_check (threw o) t)
call (Check.raise ∷ body) t = (t, true)

-- RUN: the counters, and whether the line is a pass
unfoldable pub run_test : List Check → Counters → Counters × Bool
unfolding call
run_test body t =
    let (t', raised) = call body t in
    if raised then (record t' { fail = suc t'.fail }, false) else (t', t.fail == t'.fail)

-- the tests of a suite, one after the other, and of a list of suites
unfoldable pub run_tests : List (List Check) → Counters → Counters
unfolding run_test
run_tests [] t = t
run_tests (body ∷ bodies) t = run_tests bodies (run_test body t).0

pub record TestSuite : Type 0 where
  pub id : Bytes
  pub category : Bytes
  pub name : Bytes
  pub run : List (List Check)

-- category_counters() and test_registry()
pub record Registry : Type 0 where
  pub counters : List (Bytes × ℕ)
  pub suites : List TestSuite

-- counters[category], and the write to it
unfoldable pub counter : Bytes → List (Bytes × ℕ) → ℕ
counter category [] = 0
counter category ((c, n) ∷ counters) =
    let rest = counter category counters in ite (bytes_dec c category) n rest

unfoldable pub write_counter : Bytes → ℕ → List (Bytes × ℕ) → List (Bytes × ℕ)
write_counter category m [] = (category, m) ∷ []
write_counter category m ((c, n) ∷ counters) =
    let rest = write_counter category m counters in
    ite (bytes_dec c category) ((c, m) ∷ counters) ((c, n) ∷ rest)

-- What the constructor is given: the directory's name, the file's stem, and the function.
pub record Source : Type 0 where
  pub directory : Bytes
  pub stem : Bytes
  pub run : List (List Check)

-- toupper of the category's first character
unfoldable pub prefix : Bytes → ℕ
prefix [] = 0
prefix (c ∷ category) = to_upper c

-- the constructor of TestRegistrar
unfoldable pub register : Source → Registry → Registry
unfolding counter write_counter prefix prettify
register s r =
    let number = suc (counter s.directory r.counters) in
    record {
      counters = write_counter s.directory number r.counters;
      suites =
          r.suites
          ++ record {
            id = prefix s.directory ∷ to_string number;
            category = s.directory;
            name = prettify s.stem;
            run = s.run;
          }
            ∷ [];
    }

unfoldable pub register_all : List Source → Registry → Registry
unfolding register
register_all [] r = r
register_all (s ∷ ss) r = register_all ss (register s r)

-- what main prints, beside the lines of the tests
pub data Event : Type 0 where
  ran : TestSuite → Event
  stats : Event
  usage : Event
  listing : Event
  unknown : Bytes → Event

unfoldable pub is_exact : Bytes → TestSuite → Bool
is_exact requested suite =
    ite (bytes_dec (lower suite.name) requested) true
      (ite (bytes_dec (lower suite.id) requested) true false)

unfoldable pub is_category : Bytes → TestSuite → Bool
is_category requested suite = ite (bytes_dec (lower suite.category) requested) true false

-- the loop of main, and what follows it
unfoldable pub scan : Bytes → Bytes → Bool → List TestSuite → ℕ × List Event
unfolding is_exact is_category lower
scan requested requested_lower found [] =
    if found then (0, Event.stats ∷ []) else (1, Event.unknown requested ∷ [])
scan requested requested_lower found (suite ∷ suites) =
    let rest = scan requested requested_lower true suites in
    let rest' = scan requested requested_lower found suites in
    if is_exact requested_lower suite
    then (0, Event.ran suite ∷ Event.stats ∷ [])
    else if is_category requested_lower suite
    then (rest.0, Event.ran suite ∷ rest.1)
    else rest'

-- every registered suite, in order
unfoldable pub run_all : List TestSuite → List Event
run_all [] = Event.stats ∷ []
run_all (suite ∷ suites) = Event.ran suite ∷ run_all suites

-- main, without argv[0]: the exit status, and what is printed
unfoldable pub test_main : List Bytes → List TestSuite → ℕ × List Event
unfolding scan run_all prettify lower
test_main [] suites = (0, run_all suites)
test_main (requested ∷ args) suites =
    ite (bytes_dec requested (codes "-h")) (0, Event.usage ∷ [])
      (ite (bytes_dec requested (codes "--help")) (0, Event.usage ∷ [])
        (ite (bytes_dec requested (codes "list")) (0, Event.listing ∷ [])
          (scan requested (lower (prettify requested)) false suites)))

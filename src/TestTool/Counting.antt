-- ===== src/TestTool/Counting.antt =====
-- tests/custom/support/macros.h: what CHK, CHK_THROWS and RUN leave in the counters.
use rate_throttle.Prelude.{
  ℕ, suc, ◌+◌, ◌≡◌, refl, Bool, true, false, List, [], ◌∷◌, if◌then◌else◌, ◌==◌, arith, length,
  Bool-cases, inl, inr,
}
use rate_throttle.TestTool.{Counters, Check, count_check, threw, call, run_test, run_tests}

-- The checks that are made before an exception leaves the function, and whether one does.
abbrev pub made : List Check → List Bool
made [] = []
made (Check.chk holds ∷ body) = holds ∷ made body
made (Check.chk_throws o ∷ body) = threw o ∷ made body
made (Check.raise ∷ body) = []

abbrev pub raises : List Check → ℕ
raises [] = 0
raises (Check.chk holds ∷ body) = raises body
raises (Check.chk_throws o ∷ body) = raises body
raises (Check.raise ∷ body) = 1

abbrev pub held : List Bool → ℕ
held [] = 0
held (b ∷ bs) = if b then suc (held bs) else held bs

abbrev pub failed : List Bool → ℕ
failed [] = 0
failed (b ∷ bs) = if b then failed bs else suc (failed bs)

-- The counters and the result of a function that is called.
abbrev Counts : List Check → Counters → Counters × Bool → Type 0
Counts body t r =
    (r.0.pass ≡ t.pass + held (made body))
    × (r.0.fail ≡ t.fail + failed (made body))
    × (r.0.total ≡ t.total + length (made body))
    × ((if r.1 then 1 else 0) ≡ raises body)

count_lem :
    (holds : Bool) (body : List Check) (t : Counters) (r : Counters × Bool)
    → Counts body (count_check holds t) r
    → (r.0.pass ≡ t.pass + held (holds ∷ made body))
      × (r.0.fail ≡ t.fail + failed (holds ∷ made body))
      × (r.0.total ≡ t.total + length (holds ∷ made body))
      × ((if r.1 then 1 else 0) ≡ raises body)
unfolding count_check
count_lem true body t r h = ground (arith, h)
count_lem false body t r h = ground (arith, h)

call-Counts : (body : List Check) (t : Counters) → Counts body t (call body t)
unfolding call
call-Counts [] t = (omega arith, omega arith, omega arith, refl)
call-Counts (Check.chk holds ∷ body) t =
    count_lem holds body t (call body (count_check holds t))
      (call-Counts body (count_check holds t))
call-Counts (Check.chk_throws o ∷ body) t =
    count_lem (threw o) body t (call body (count_check (threw o) t))
      (call-Counts body (count_check (threw o) t))
call-Counts (Check.raise ∷ body) t = (omega arith, omega arith, omega arith, refl)

run_test-Counts :
    (body : List Check) (t : Counters)
    → ((run_test body t).0.pass ≡ t.pass + held (made body))
      × ((run_test body t).0.fail ≡ t.fail + failed (made body) + raises body)
      × ((run_test body t).0.total ≡ t.total + length (made body))
unfolding run_test
run_test-Counts body t = elim (Bool-cases (call body t).1) [
  | inl e ↦ ground (arith, e, call-Counts body t)
  | inr e ↦ ground (arith, e, call-Counts body t)
]

-- A test is shown as passed exactly when none of the checks that it made failed and nothing was
-- thrown.
pub run_test-passes :
    (body : List Check) (t : Counters)
    → (run_test body t).1 ≡ (failed (made body) + raises body == 0)
unfolding run_test
run_test-passes body t = elim (Bool-cases (call body t).1) [
  | inl e ↦ ground (arith, e, call-Counts body t)
  | inr e ↦ ground (arith, e, call-Counts body t)
]

-- Over several tests.
abbrev pub sum_over : (List Check → ℕ) → List (List Check) → ℕ
sum_over f [] = 0
sum_over f (body ∷ bodies) = f body + sum_over f bodies

-- Running tests one after the other adds to `pass` the checks that held, to `fail` those that did
-- not and one for each test that threw, and to `total` the checks that were made; a check behind an
-- exception is not made.
pub run_tests-counts :
    (bodies : List (List Check)) (t : Counters)
    → ((run_tests bodies t).pass ≡ t.pass + sum_over (λ b. held (made b)) bodies)
      × ((run_tests bodies t).fail
          ≡ t.fail + sum_over (λ b. failed (made b)) bodies + sum_over raises bodies)
      × ((run_tests bodies t).total ≡ t.total + sum_over (λ b. length (made b)) bodies)
unfolding run_tests
run_tests-counts [] t = (omega arith, omega arith, omega arith)
run_tests-counts (body ∷ bodies) t =
    ground (arith, run_test-Counts body t, run_tests-counts bodies (run_test body t).0)

held_failed : (bs : List Bool) → held bs + failed bs ≡ length bs
held_failed [] = refl
held_failed (b ∷ bs) = ground (arith, held_failed bs)

sums_lem :
    (bodies : List (List Check))
    → sum_over (λ b. held (made b)) bodies + sum_over (λ b. failed (made b)) bodies
      ≡ sum_over (λ b. length (made b)) bodies
sums_lem [] = refl
sums_lem (body ∷ bodies) = omega (arith, sums_lem bodies, held_failed (made body))

-- Passed and failed add up to the total, but for one more failure for each test that threw.
pub run_tests-balance :
    (bodies : List (List Check)) (t : Counters)
    → t.pass + t.fail ≡ t.total
    → (run_tests bodies t).pass + (run_tests bodies t).fail
      ≡ (run_tests bodies t).total + sum_over raises bodies
run_tests-balance bodies t h = omega (arith, run_tests-counts bodies t, sums_lem bodies)

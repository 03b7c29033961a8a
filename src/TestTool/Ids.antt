-- ===== src/TestTool/Ids.antt =====
-- tests/custom/support/registry.h: the ids that the registrars give.
use rate_throttle.Prelude.{ℕ, suc, ◌≡◌, refl, List, [], ◌∷◌, arith, ite}
use rate_throttle.Text.{Bytes, bytes_dec}
use rate_throttle.Text.Decimal.{to_string}
use rate_throttle.TestTool.{Source, TestSuite, counter, write_counter, prefix, prettify}

-- How often a category has come.
abbrev pub occurrences : Bytes → List Bytes → ℕ
occurrences category [] = 0
occurrences category (c ∷ cs) =
    let rest = occurrences category cs in ite (bytes_dec c category) (suc rest) rest

-- The suites that the sources should become, behind the categories `seen`.
abbrev pub numbered_from : List Bytes → List Source → List TestSuite
numbered_from seen [] = []
numbered_from seen (s ∷ ss) =
    record {
      id = prefix s.directory ∷ to_string (suc (occurrences s.directory seen));
      category = s.directory;
      name = prettify s.stem;
      run = s.run;
    }
    ∷ numbered_from (s.directory ∷ seen) ss

counter-write :
    (category c : Bytes) (m : ℕ) (counters : List (Bytes × ℕ))
    → counter c (write_counter category m counters)
      ≡ ite (bytes_dec category c) m (counter c counters)
unfolding counter write_counter
counter-write category c m [] = refl
counter-write category c m ((d, n) ∷ counters) = ground (arith, counter-write category c m counters)

pub counters_lem :
    (seen : List Bytes) (category : Bytes) (counters : List (Bytes × ℕ))
    → ((c : Bytes) → counter c counters ≡ occurrences c seen)
    → (c : Bytes)
    → counter c (write_counter category (suc (counter category counters)) counters)
      ≡ occurrences c (category ∷ seen)
counters_lem seen category counters h c =
    ground
      (arith, counter-write category c (suc (counter category counters)) counters, h c, h category)

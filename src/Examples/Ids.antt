-- ===== src/Examples/Ids.antt =====
-- examples/support/registry.h: the ids that the registrars give.
use rate_throttle.Prelude.{suc, ◌≡◌, sym, ◌∙◌, List, [], ◌∷◌, ◌++◌, append_assoc, append-nil, refl}
use rate_throttle.Text.{Bytes}
use rate_throttle.Text.Decimal.{to_string}
use rate_throttle.TestTool.{counter, prefix}
use rate_throttle.TestTool.Ids.{occurrences, counters_lem}
use rate_throttle.Examples.{
  ExampleSuite, ExampleRegistry, ExampleSource, prettify, register_example, register_examples,
}

-- The suites that the sources should become, behind the categories `seen`.
abbrev pub examples_from : List Bytes → List ExampleSource → List ExampleSuite
examples_from seen [] = []
examples_from seen (s ∷ ss) =
    record {
      id = prefix s.directory ∷ to_string (suc (occurrences s.directory seen));
      category = s.directory;
      name = prettify s.stem;
      run = s.run;
    }
    ∷ examples_from (s.directory ∷ seen) ss

register_examples-from :
    (seen : List Bytes) (ss : List ExampleSource) (r : ExampleRegistry)
    → ((c : Bytes) → counter c r.counters ≡ occurrences c seen)
    → (register_examples ss r).suites ≡ r.suites ++ examples_from seen ss
unfolding register_examples register_example
register_examples-from seen [] r h = sym (append-nil r.suites)
register_examples-from seen (s ∷ ss) r h =
    register_examples-from (s.directory ∷ seen) ss (register_example s r)
      (counters_lem seen s.directory r.counters h)
    ∙ append_assoc r.suites _ (examples_from (s.directory ∷ seen) ss)
    ∙ rw (h s.directory)

-- From the empty registry, the examples are registered in order, each with its category, its prettified
-- name and its function, and with an id of the category's first letter in upper case and one more than
-- the number of earlier examples of the category.
pub register_examples-ids :
    (ss : List ExampleSource)
    → (register_examples ss (record { counters = []; suites = [] })).suites ≡ examples_from [] ss
unfolding counter
register_examples-ids ss =
    register_examples-from [] ss (record { counters = []; suites = [] }) (λ c. refl)

-- ===== src/Examples.antt =====
-- examples/support: the example tool's registry (support/registry.h), its boxes (support/helpers.h) and
-- what support/framework.h prints. A suite's function is given by what it prints. Paths are given by
-- the two names that the registrar takes from them, and a double by its interface.
pub mod Printing
pub mod Mains
pub mod Ids
pub mod Boxes
pub mod Dispatch
pub mod Suites
mod Tests
use rate_throttle.Prelude.{ℕ, suc, Bool, List, [], ◌∷◌, ◌++◌}
use rate_throttle.Text.{Bytes}
use rate_throttle.Text.Decimal.{to_string}
use rate_throttle.Regression.Report.{Piece, draw_border as report_border}
use rate_throttle.Regression.Table.{
  display_width as table_width, repeat as table_repeat, pad_cell as table_pad,
}
use rate_throttle.TestTool.{
  prettify as test_prettify, lower as test_lower, counter, write_counter, prefix,
}

-- support/helpers.h has the text of the other tools' helpers.
abbrev pub prettify : Bytes → Bytes
prettify = test_prettify

abbrev pub lower : Bytes → Bytes
lower = test_lower

abbrev pub repeat : Bytes → ℕ → Bytes
repeat = table_repeat

abbrev pub visual_width : Bytes → ℕ
visual_width = table_width

abbrev pub pad_cell : Bytes → ℕ → Bytes
pad_cell = table_pad

abbrev pub draw_border : Bytes → Bytes → Bytes → List ℕ → List Piece
draw_border = report_border

pub record ExampleSuite : Type 0 where
  pub id : Bytes
  pub category : Bytes
  pub name : Bytes
  pub run : List Piece

-- category_counters() and example_registry()
pub record ExampleRegistry : Type 0 where
  pub counters : List (Bytes × ℕ)
  pub suites : List ExampleSuite

-- What the constructor is given: the directory's name, the file's stem, and the function.
pub record ExampleSource : Type 0 where
  pub directory : Bytes
  pub stem : Bytes
  pub run : List Piece

-- the constructor of ExampleRegistrar
unfoldable pub register_example : ExampleSource → ExampleRegistry → ExampleRegistry
unfolding counter write_counter prefix
register_example s r =
    let number = suc (counter s.directory r.counters) in
    record {
      counters = write_counter s.directory number r.counters;
      suites =
          r.suites
          ++ record {
            id = prefix s.directory ∷ to_string number;
            category = s.directory;
            name = prettify s.stem;
            run = s.run;
          }
            ∷ [];
    }

unfoldable pub register_examples : List ExampleSource → ExampleRegistry → ExampleRegistry
unfolding register_example
register_examples [] r = r
register_examples (s ∷ ss) r = register_examples ss (register_example s r)

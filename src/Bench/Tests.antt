-- ===== src/Bench/Tests.antt =====
-- The theorems on the benchmark tool at concrete inputs.
use rate_throttle.Prelude.{◌+◌, ◌≡◌, refl, false, List, [], ◌∷◌, ◌++◌, none}
use rate_throttle.Prelude.Int.{pos}
use rate_throttle.Text.{codes}
use rate_throttle.Regression.Double.Numbers.{numbers}
use rate_throttle.Bench.{Bench, total}
use rate_throttle.Bench.Rows.{Call, print_one_suite}
use rate_throttle.Bench.Runs.{BenchSuite, bench_main}
use rate_throttle.Bench.Mains.{bench_main-InOrder}
use rate_throttle.Bench.Tables.{InOrder, follow}
use rate_throttle.Bench.Tallies.Suites.{all_comparisons, all_records, suite-adds}

abbrev calls : List Call
calls =
    Call.bench_solo (codes "allow") (pos 10) (pos 100) (pos 1_000)
    ∷ Call.bench (codes "evict") (pos 10, pos 20) (pos 200, pos 100) (pos 5, pos 5)
    ∷ []

abbrev start : Bench numbers
start = record {
  custom = codes "ThrottlePro";
  standard = codes "N/A";
  suite_name = [];
  last_group = [];
  table_open = false;
  table_is_solo = false;
  transcript = [];
  result_tally = record { custom_wins = 0; standard_wins = 0; ties = 0 };
  recorded = [];
  lines = [];
}

abbrev suites : List BenchSuite
suites =
    record { id = codes "C1"; category = codes "core"; name = codes "Decisions"; calls = calls }
    ∷ record { id = codes "A1"; category = codes "access"; name = codes "Peek"; calls = [] }
    ∷ []

bench_main-InOrder_example :
    InOrder none (bench_main numbers (codes "core" ∷ []) suites start).bench.lines
unfolding follow
bench_main-InOrder_example = bench_main-InOrder numbers (codes "core" ∷ []) suites start refl

suite-adds_example :
    (total (print_one_suite numbers (codes "core") calls start).result_tally
      ≡ total start.result_tally + all_comparisons numbers calls)
    × ((print_one_suite numbers (codes "core") calls start).recorded
        ≡ [] ++ all_records numbers (codes "core") calls)
suite-adds_example = suite-adds numbers (codes "core") calls start

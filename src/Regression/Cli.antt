-- ===== src/Regression/Cli.antt =====
-- regression/custom/regression_main.cpp and support/export.h: the command line, and a whole
-- comparison. The directory's entries and the reading of a snapshot are parameters; the listings and
-- the usage text are commands that the model only tells apart.
pub mod Run
use rate_throttle.Prelude.{
  ℕ, zero, suc, Bool, true, false, ◌&&◌, not, List, [], ◌∷◌, ◌++◌, ite, if◌then◌else◌, Option, none,
  some,
}
use rate_throttle.Text.{Bytes, codes, bytes_dec, null, Result, ok, throw, ◌>>=◌}
use rate_throttle.Text.Decimal.{to_string}
use rate_throttle.Regression.Double.{Double}
use rate_throttle.Regression.Results.{BenchmarkResult, apply_method_filter, apply_group_filter}
use rate_throttle.Regression.MethodIds.{
  looks_like_method_id, looks_like_letter_group, resolve_method_id, resolve_letter_group,
}
use rate_throttle.Regression.Versions.{Baseline, Entry, try_parse_version_arg}
use rate_throttle.Regression.Versions.Newest.{latest_baseline}
use rate_throttle.Regression.Report.{
  Tool, RegressionRow, Piece, style, text, reset, bold, red, newline,
}
use rate_throttle.Regression.Report.Rows.{print_regression}
use rate_throttle.Regression.Report.Summary.{print_summary}

abbrev pub live_results_file : Bytes
live_results_file = codes "benchmarks/results/benchmark_results.json"

unfoldable pub baseline_path : Baseline → Bytes
baseline_path version =
    codes "benchmarks/baselines/" ++ version.name ++ b'/' ∷ version.name ++ codes ".json"

-- fs::path(file).parent_path().filename(), of a path with no empty part: the part before the last
-- slash, where `parent` is the last part that has ended and `part` the one being read
unfoldable pub parent_name : Bytes → Bytes → Bytes → Bytes
parent_name parent part [] = parent
parent_name parent part (c ∷ file) = elim (bytes_dec (c ∷ []) (codes "/")) [
  | yes e ↦ parent_name part [] file
  | no n ↦ parent_name parent (part ++ c ∷ []) file
]

unfoldable pub label_for : Bytes → Bytes
label_for file = ite (bytes_dec file live_results_file) (codes "Current") (parent_name [] [] file)

-- up to two leading arguments that are versions, and what is left
unfoldable pub second_version : Baseline → List Bytes → List Baseline × List Bytes
second_version v1 [] = (v1 ∷ [], [])
second_version v1 (arg ∷ args) = elim (try_parse_version_arg arg) [
  | none ↦ (v1 ∷ [], arg ∷ args)
  | some v2 ↦ (v1 ∷ v2 ∷ [], args)
]

unfoldable pub leading_versions : List Bytes → List Baseline × List Bytes
leading_versions [] = ([], [])
leading_versions (arg ∷ args) = elim (try_parse_version_arg arg) [
  | none ↦ ([], arg ∷ args)
  | some v1 ↦ second_version v1 args
]

-- the loop that joins the rest with spaces
unfoldable pub join_words : Bytes → List Bytes → Bytes
join_words filter [] = filter
join_words filter (word ∷ words) =
    join_words ((if null filter then filter else (filter ++ b' ' ∷ [])) ++ word) words

-- the files of the two sides, current and baseline
unfoldable pub sides : List Entry → List Baseline → Result (Bytes × Bytes)
sides entries [] = do file ← latest_baseline entries; ok (live_results_file, file)
sides entries (v1 ∷ []) = ok (live_results_file, baseline_path v1)
sides entries (v1 ∷ v2 ∷ vs) = ok (baseline_path v1, baseline_path v2)

pub data Command : Type 0 where
  list : Command
  methods : Bytes → Command
  usage : Command
  compare : List Bytes → Command

-- the commands that are matched before anything else; `argv[0]` is left out
unfoldable pub command : List Bytes → Command
command (arg ∷ []) = ite (bytes_dec arg (codes "list")) list (
    ite (bytes_dec arg (codes "methods")) (methods []) (
      ite (bytes_dec arg (codes "-h")) usage (
        ite (bytes_dec arg (codes "--help")) usage
          (ite (bytes_dec arg (codes "help")) usage (compare (arg ∷ []))))))
command (arg ∷ tag ∷ []) =
    ite (bytes_dec arg (codes "methods")) (methods tag) (compare (arg ∷ tag ∷ []))
command args = compare args

module _ (double : Double) where
  open double use {D, fixed}

  unfoldable pub export_row : RegressionRow double → Bytes
  export_row r =
      codes "  {"
      ++ 0x0A ∷ codes "    \"suite\": \""
      ++ r.suite
      ++ codes "\","
      ++ 0x0A ∷ codes "    \"operation\": \""
      ++ r.operation
      ++ codes "\","
      ++ 0x0A ∷ codes "    \"iteration\": "
      ++ to_string r.iteration
      ++ codes ", "
      ++ 0x0A ∷ codes "    \"baseline_ns\": "
      ++ fixed 2 r.baseline_ns
      ++ codes ","
      ++ 0x0A ∷ codes "    \"current_ns\": "
      ++ fixed 2 r.current_ns
      ++ codes ","
      ++ 0x0A ∷ codes "    \"pct_change\": "
      ++ fixed 2 r.pct_change
      ++ 0x0A ∷ codes "  }"

  unfoldable pub export_rows : List (RegressionRow double) → Bytes
  export_rows [] = []
  export_rows (r ∷ rs) =
      export_row r ++ (if null rs then [] else codes ",") ++ 0x0A ∷ export_rows rs

  -- the text that exportJson writes
  unfoldable pub export_json : List (RegressionRow double) → Bytes
  export_json results = codes "[" ++ 0x0A ∷ export_rows results ++ codes "]" ++ 0x0A ∷ []

  -- the text that exportMarkdown writes
  unfoldable pub export_markdown : Bytes → Bytes → Bytes
  export_markdown custom markdown =
      codes "#" ++ custom ++ codes "Regression Report" ++ 0x0A ∷ markdown

  module _ (entries : List Entry) (load : Bytes → Result (List (BenchmarkResult D))) where
    -- the two filters; a letter's group is used if it has a member
    unfoldable pub filter_sides :
        Bytes
        → List (BenchmarkResult D)
        → List (BenchmarkResult D)
        → Bytes
        → Bytes
        → List Bytes
        → Result (List (BenchmarkResult D) × List (BenchmarkResult D))
    filter_sides filter baseline current current_label baseline_label group =
        if not (null group)
        then apply_group_filter baseline current group current_label baseline_label
        else if not (null filter)
        then apply_method_filter baseline current filter current_label baseline_label
        else ok (baseline, current)

    -- the filter and the group, resolved against the baseline's file
    unfoldable pub resolve : Bytes → Bytes → Result (Bytes × List Bytes)
    resolve filter file =
        if not (null filter) && looks_like_method_id filter
        then (do method ← resolve_method_id load filter file; ok (method, []))
        else if not (null filter) && looks_like_letter_group filter
        then (do group ← resolve_letter_group load filter file; ok (filter, group))
        else ok (filter, [])

    unfoldable pub run_comparison : List Bytes → Tool double → Result (Tool double)
    run_comparison args tool = do
      let versions = leading_versions args
      let words = join_words [] versions.1
      (current_file, baseline_file) ← sides entries versions.0
      let current_label = label_for current_file
      let baseline_label = label_for baseline_file
      (filter, group) ← resolve words baseline_file
      baseline_all ← load baseline_file
      current_all ← load current_file
      (baseline, current) ←
          filter_sides filter baseline_all current_all current_label baseline_label group
      ok (
          print_summary double (
            print_regression double baseline current
              (record tool { current_label = current_label; baseline_label = baseline_label })))

    -- What a comparison ends with: the exit status, what is printed (std::cerr included), and the
    -- exported files, or none.
    pub record Ended : Type 0 where
      pub status : ℕ
      pub tool : Tool double
      pub files : Option (Bytes × Bytes)

    unfoldable pub ended : Bytes → Tool double → Result (Tool double) → Ended
    ended custom tool (ok tool') = record {
      status = 0;
      tool = tool';
      files = some (export_json tool'.results, export_markdown custom tool'.markdown);
    }
    ended custom tool (throw e) = record {
      status = 1;
      tool = record tool {
        out = tool.out ++ bold ∷ red ∷ text (codes "Error: ") ∷ reset ∷ text e ∷ newline ∷ [];
      };
      files = none;
    }

    -- main, on the arguments of a comparison
    unfoldable pub compare_main : List Bytes → Tool double → Ended
    compare_main args tool = ended (codes "ThrottlePro") tool (run_comparison args tool)

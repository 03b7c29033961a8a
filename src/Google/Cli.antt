-- ===== src/Google/Cli.antt =====
-- regression/google/regression_main.cpp and support/export.h: a whole comparison of the google tool.
-- The folders, and the reading of a snapshot, are parameters.
pub mod Run
use rate_throttle.Prelude.{
  ℕ, Bool, ◌&&◌, not, List, [], ◌∷◌, ◌++◌, ite, if◌then◌else◌, Option, none, some,
}
use rate_throttle.Text.{Bytes, codes, bytes_dec, null, Result, ok, throw, ◌>>=◌}
use rate_throttle.Regression.Double.{Double}
use rate_throttle.Regression.Versions.{Baseline}
use rate_throttle.Regression.Report.{Piece, text, reset, bold, red, newline}
use rate_throttle.Regression.Cli.{parent_name, Command, command, leading_versions, join_words}
use rate_throttle.Google.{
  GoogleResult, Folder, apply_name_filter, apply_names_filter, latest_google_baseline,
}
use rate_throttle.Google.Common.{looks_like_method_id, looks_like_letter_group}
use rate_throttle.Google.Ids.{resolve_name_id, resolve_name_group}
use rate_throttle.Google.Table.{GoogleRow, GoogleTool, print_google_regression}
use rate_throttle.Google.Summary.{print_google_summary}

abbrev pub google_live_file : Bytes
google_live_file = codes "benchmarks/results/google_benchmark_results.json"

unfoldable pub google_baseline_path : Baseline → Bytes
google_baseline_path version =
    codes "benchmarks/baselines/" ++ version.name ++ codes "/g" ++ version.name ++ codes ".json"

unfoldable pub google_label_for : Bytes → Bytes
google_label_for file =
    ite (bytes_dec file google_live_file) (codes "Current") (parent_name [] [] file)

-- the commands that are matched before anything else, as in the custom tool
abbrev pub google_command : List Bytes → Command
google_command = command

-- the files of the two sides, current and baseline
unfoldable pub google_sides : List Folder → List Baseline → Result (Bytes × Bytes)
google_sides folders [] = do file ← latest_google_baseline folders; ok (google_live_file, file)
google_sides folders (v1 ∷ []) = ok (google_live_file, google_baseline_path v1)
google_sides folders (v1 ∷ v2 ∷ vs) = ok (google_baseline_path v1, google_baseline_path v2)

module _ (double : Double) where
  open double use {D, fixed}

  unfoldable pub google_row_json : GoogleRow double → Bytes
  google_row_json r =
      codes "  {"
      ++ 0x0A ∷ codes "    \"name\": \""
      ++ r.name
      ++ codes "\","
      ++ 0x0A ∷ codes "    \"baseline_ns\": "
      ++ fixed 2 r.baseline_ns
      ++ codes ","
      ++ 0x0A ∷ codes "    \"current_ns\": "
      ++ fixed 2 r.current_ns
      ++ codes ","
      ++ 0x0A ∷ codes "    \"pct_change\": "
      ++ fixed 2 r.pct
      ++ 0x0A ∷ codes "  }"

  unfoldable pub google_rows_json : List (GoogleRow double) → Bytes
  google_rows_json [] = []
  google_rows_json (r ∷ rs) =
      google_row_json r ++ (if null rs then [] else codes ",") ++ 0x0A ∷ google_rows_json rs

  -- the text that exportJson writes
  unfoldable pub google_json : List (GoogleRow double) → Bytes
  google_json rows = codes "[" ++ 0x0A ∷ google_rows_json rows ++ codes "]" ++ 0x0A ∷ []

  -- the text that exportMarkdown writes
  unfoldable pub google_markdown : Bytes → Bytes → Bytes
  google_markdown custom markdown =
      codes "#" ++ custom ++ codes "Regression Report" ++ 0x0A ∷ markdown

  module _ (folders : List Folder) (load : Bytes → Result (List (GoogleResult D))) where
    -- the two filters; a letter's group is used if it has a member
    unfoldable pub google_filter_sides :
        Bytes
        → List (GoogleResult D)
        → List (GoogleResult D)
        → Bytes
        → Bytes
        → List Bytes
        → Result (List (GoogleResult D) × List (GoogleResult D))
    google_filter_sides filter baseline current current_label baseline_label group =
        if not (null group)
        then apply_names_filter baseline current group current_label baseline_label
        else if not (null filter)
        then apply_name_filter baseline current filter current_label baseline_label
        else ok (baseline, current)

    -- the filter and the group, resolved against the baseline's file
    unfoldable pub google_resolve : Bytes → Bytes → Result (Bytes × List Bytes)
    google_resolve filter file =
        if not (null filter) && looks_like_method_id filter
        then (do name ← resolve_name_id load filter file; ok (name, []))
        else if not (null filter) && looks_like_letter_group filter
        then (do group ← resolve_name_group load filter file; ok (filter, group))
        else ok (filter, [])

    unfoldable pub google_comparison : List Bytes → GoogleTool double → Result (GoogleTool double)
    google_comparison args tool = do
      let versions = leading_versions args
      let words = join_words [] versions.1
      (current_file, baseline_file) ← google_sides folders versions.0
      let current_label = google_label_for current_file
      let baseline_label = google_label_for baseline_file
      (filter, group) ← google_resolve words baseline_file
      baseline_all ← load baseline_file
      current_all ← load current_file
      (baseline, current) ←
          google_filter_sides filter baseline_all current_all current_label baseline_label group
      ok (
          print_google_summary double (
            print_google_regression double baseline current
              (record tool { current_label = current_label; baseline_label = baseline_label })))

    -- What a comparison ends with: the exit status, what is printed (std::cerr included), and the
    -- exported files, or none.
    pub record GoogleEnded : Type 0 where
      pub status : ℕ
      pub tool : GoogleTool double
      pub files : Option (Bytes × Bytes)

    unfoldable pub google_ended :
        Bytes → GoogleTool double → Result (GoogleTool double) → GoogleEnded
    google_ended custom tool (ok tool') = record {
      status = 0;
      tool = tool';
      files = some (google_json tool'.rows, google_markdown custom tool'.markdown);
    }
    google_ended custom tool (throw e) = record {
      status = 1;
      tool = record tool {
        out = tool.out ++ bold ∷ red ∷ text (codes "Error: ") ∷ reset ∷ text e ∷ newline ∷ [];
      };
      files = none;
    }

    -- main, on the arguments of a comparison
    unfoldable pub google_main : List Bytes → GoogleTool double → GoogleEnded
    google_main args tool = google_ended (codes "ThrottlePro") tool (google_comparison args tool)

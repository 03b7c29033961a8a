-- ===== src/Google/Listing.antt =====
-- regression/google/support/framework.h, printMethods and printList, and the usage text of
-- regression_main.cpp. The boxes and the tree of versions are printed as the custom tool prints them;
-- the ids of a letter's members are not padded.
pub mod Shown
use rate_throttle.Prelude.{
  ℕ, suc, ◌+◌, ◌||◌, not, List, [], ◌∷◌, ◌++◌, if◌then◌else◌, length, Option, none, some,
}
use rate_throttle.Text.{Bytes, codes, null, Result, ok, throw, ◌>>=◌}
use rate_throttle.Regression.MethodIds.{method_id}
use rate_throttle.Regression.Versions.{Baseline}
use rate_throttle.Regression.Report.{Piece, text, reset, bold, green, cyan, gray, newline}
use rate_throttle.Regression.Listing.{
  white, dark_gray, branch, letter_line, version_box, sort_baselines, choose_version, list_pieces,
  Printed,
}
use rate_throttle.Regression.Listing.Usage.{
  yellow, UsageRow, usage_row, seg, column_width, usage_lines,
}
use rate_throttle.Google.{GoogleResult, Folder, is_google_baseline_name, unique_names}
use rate_throttle.Google.Common.{group_methods_by_letter, parse_baseline}

-- the collecting loop of printMethods and printList
unfoldable pub collect_folders : List Folder → Result (List Baseline)
collect_folders [] = ok []
collect_folders (folder ∷ folders) =
    let rest = collect_folders folders in
    if not folder.is_directory || not (is_google_baseline_name folder)
    then rest
    else (do baseline ← parse_baseline folder.filename; baselines ← rest; ok (baseline ∷ baselines))

-- the names of a letter, the first of them with the number `j` + 1
unfoldable pub name_lines : ℕ → ℕ → List Bytes → List Piece
unfolding branch
name_lines letter j [] = []
name_lines letter j (m ∷ ms) =
    cyan
    ∷ text (branch (null ms))
    ∷ reset
    ∷ green
    ∷ text (codes "[")
    ∷ text (method_id letter j)
    ∷ text (codes "]")
    ∷ reset
    ∷ text (codes "  ")
    ∷ white
    ∷ text m
    ∷ reset
    ∷ newline
    ∷ name_lines letter (suc j) ms

unfoldable pub name_groups : List (ℕ × List Bytes) → List Piece
unfolding name_lines letter_line
name_groups [] = []
name_groups ((letter, members) ∷ groups) =
    letter_line letter (length members)
    ++ name_lines letter 0 members
    ++ (if null groups then [] else newline ∷ [])
    ++ name_groups groups

module _ {D : Type 0} (load : Bytes → Result (List (GoogleResult D))) where
  unfoldable pub google_listing : Bytes → List (GoogleResult D) → List Piece
  unfolding version_box name_groups
  google_listing name results =
      let names = unique_names results in
      version_box name (length names) ++ name_groups (group_methods_by_letter names) ++ newline ∷ []

  -- the loop over the baselines
  unfoldable pub names_loop : List Baseline → Printed
  unfolding google_listing
  names_loop [] = record { pieces = []; error = none }
  names_loop (b ∷ bs) =
      let rest = names_loop bs in
      elim (load
        (codes "benchmarks/baselines/" ++ b.name ++ codes "/g" ++ b.name ++ codes ".json")) [
          | throw e ↦ record { pieces = []; error = some e }
          | ok results ↦ record {
            pieces = google_listing b.name results ++ rest.pieces;
            error = rest.error;
          }
        ]

  unfoldable pub print_google_methods : List Folder → Bytes → Printed
  unfolding names_loop choose_version sort_baselines
  print_google_methods folders version_filter =
      elim (do
        baselines ← collect_folders folders
        choose_version version_filter (sort_baselines baselines)) [
          | throw e ↦ record { pieces = []; error = some e }
          | ok baselines ↦ names_loop baselines
        ]

unfoldable pub print_google_list : List Folder → Bytes → Printed
unfolding list_pieces sort_baselines
print_google_list folders custom = elim (collect_folders folders) [
  | throw e ↦ record { pieces = []; error = some e }
  | ok baselines ↦ record { pieces = list_pieces custom (sort_baselines baselines); error = none }
]

abbrev pub google_rows : List UsageRow
google_rows =
    usage_row (seg cyan (codes "google_regression") ∷ [])
      (codes "compare newest baseline vs current run")
    ∷ usage_row (seg cyan (codes "google_regression") ∷ seg yellow (codes " list") ∷ [])
        (codes "list all baselines")
    ∷ usage_row
        (seg cyan (codes "google_regression")
          ∷ seg yellow (codes " methods")
          ∷ seg gray (codes " [<baseline>]")
          ∷ [])
        (codes "list benchmarks (all, or one baseline)")
    ∷ usage_row
        (seg cyan (codes "google_regression")
          ∷ seg gray (codes " <baseline>")
          ∷ seg gray (codes " [<benchmark>]")
          ∷ [])
        (codes "vs one baseline")
    ∷ usage_row (seg cyan (codes "google_regression") ∷ seg gray (codes " <benchmark>") ∷ [])
        (codes "vs current run, one benchmark")
    ∷ usage_row
        (seg cyan (codes "google_regression") ∷ seg gray (codes " <baseline> <baseline>") ∷ [])
        (codes "baseline vs baseline")
    ∷ usage_row
        (seg cyan (codes "google_regression")
          ∷ seg gray (codes " <baseline> <baseline> <benchmark>")
          ∷ [])
        (codes "baseline vs baseline, one benchmark")
    ∷ usage_row
        (seg cyan (codes "google_regression") ∷ seg yellow (codes " -h | --help | help") ∷ [])
        (codes "this summary")
    ∷ []

-- printUsage of the google tool, on std::cerr
unfoldable pub print_google_usage : List Piece
unfolding usage_lines column_width
print_google_usage =
    bold
      ∷ text (codes "Usage:")
      ∷ reset
      ∷ newline
      ∷ usage_lines dark_gray (column_width google_rows + 3) google_rows
    ++ newline
      ∷ gray
      ∷ text (codes "<baseline>")
      ∷ dark_gray
      ∷ text (codes " = version tag, e.g. v1.2.0    ")
      ∷ gray
      ∷ text (codes "<benchmark>")
      ∷ dark_gray
      ∷ text (codes " = benchmark name, e.g. BM_PushBack")
      ∷ reset
      ∷ newline
      ∷ newline
      ∷ dark_gray
      ∷ text (codes "quoting: a <benchmark> with spaces (rare, but Google Benchmark allows it)")
      ∷ newline
      ∷ text (codes "doesn't need quotes -- every word after the tag(s) joins back into the name")
      ∷ newline
      ∷ newline
      ∷ text (codes "shortcuts: <benchmark> can be a [LetterN] id from ")
      ∷ reset
      ∷ yellow
      ∷ text (codes "methods")
      ∷ reset
      ∷ dark_gray
      ∷ text (codes " (e.g. \"a1\"), or just the letter (e.g. \"a\")")
      ∷ newline
      ∷ text (codes "to run every benchmark in that group")
      ∷ reset
      ∷ newline
      ∷ []

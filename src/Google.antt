-- ===== src/Google.antt =====
-- regression/google/support/helpers.h: what the google tool does differently from the custom one. Its
-- results are keyed by a name, and the group of a row is read off the name.
pub mod Common
pub mod Ids
pub mod Names
pub mod Newest
pub mod Table
pub mod Summary
pub mod Cli
pub mod Listing
mod Tests
use rate_throttle.Prelude.{
  ℕ, Bool, true, false, List, [], ◌∷◌, ◌++◌, ite, if◌then◌else◌, ◌==◌, Option, none, some, ◌&&◌,
  ◌||◌, not,
}
use rate_throttle.Text.{Bytes, bytes_dec, contains, null, codes, Result, ok, throw, ◌>>=◌}
use rate_throttle.Regression.Groups.{group_methods_by_letter}
use rate_throttle.Regression.Versions.{Baseline, has_v, parse_baseline}
use rate_throttle.Regression.Versions.Newest.{newer}

-- One entry of a snapshot; the type of doubles is a parameter.
pub record GoogleResult (D : Type 0) : Type 0 where
  pub name : Bytes
  pub iterations : ℕ
  pub real_time : D
  pub cpu_time : D
  pub time_unit : Bytes

-- what precedes the first slash
unfoldable pub before_slash : Bytes → Bytes
before_slash [] = []
before_slash (c ∷ s) = let rest = before_slash s in if c == b'/' then [] else c ∷ rest

-- what precedes the last underscore, if there is one
unfoldable pub before_last : Bytes → Option Bytes
before_last [] = none
before_last (c ∷ s) = elim (before_last s) [
  | none ↦ if c == b'_' then some [] else none
  | some t ↦ some (c ∷ t)
]

unfoldable pub base_name : Bytes → Bytes
unfolding before_slash before_last
base_name name =
    let base = before_slash name in elim (before_last base) [ none ↦ base | some t ↦ t ]

module _ {D : Type 0} where
  -- `zero` is the double 0.0
  unfoldable pub get_real_time : D → List (GoogleResult D) → Bytes → D
  get_real_time zero [] name = zero
  get_real_time zero (result ∷ results) name =
      let rest = get_real_time zero results name in
      ite (bytes_dec result.name name) result.real_time rest

  unfoldable pub names_from : List Bytes → List (GoogleResult D) → List Bytes
  names_from names [] = names
  names_from names (result ∷ results) =
      names_from (if contains names result.name then names else (names ++ result.name ∷ [])) results

  unfoldable pub unique_names : List (GoogleResult D) → List Bytes
  unfolding names_from
  unique_names results = names_from [] results

  unfoldable pub filter_by_name : List (GoogleResult D) → Bytes → List (GoogleResult D)
  filter_by_name [] name = []
  filter_by_name (result ∷ results) name =
      let rest = filter_by_name results name in
      ite (bytes_dec result.name name) (result ∷ rest) rest

  unfoldable pub filter_by_names : List (GoogleResult D) → List Bytes → List (GoogleResult D)
  filter_by_names [] names = []
  filter_by_names (result ∷ results) names =
      let rest = filter_by_names results names in
      if contains names result.name then result ∷ rest else rest

  unfoldable pub apply_name_filter :
      List (GoogleResult D)
      → List (GoogleResult D)
      → Bytes
      → Bytes
      → Bytes
      → Result (List (GoogleResult D) × List (GoogleResult D))
  apply_name_filter baseline current name current_label baseline_label =
      let baseline' = filter_by_name baseline name in
      let current' = filter_by_name current name in
      if null baseline'
      then throw (baseline_label ++ codes " has no benchmark '" ++ name ++ codes "'.")
      else if null current'
      then throw (current_label ++ codes " has no benchmark '" ++ name ++ codes "'.")
      else ok (baseline', current')

  unfoldable pub apply_names_filter :
      List (GoogleResult D)
      → List (GoogleResult D)
      → List Bytes
      → Bytes
      → Bytes
      → Result (List (GoogleResult D) × List (GoogleResult D))
  apply_names_filter baseline current names current_label baseline_label =
      let baseline' = filter_by_names baseline names in
      let current' = filter_by_names current names in
      if null baseline'
      then throw (baseline_label ++ codes " has no benchmarks in that group.")
      else if null current'
      then throw (current_label ++ codes " has no benchmarks in that group.")
      else ok (baseline', current')

-- An entry of the baselines' directory: whether it is a folder, its name, and whether it holds the
-- snapshot `g<name>.json`.
pub record Folder : Type 0 where
  pub is_directory : Bool
  pub filename : Bytes
  pub has_snapshot : Bool

unfoldable pub is_google_baseline_name : Folder → Bool
is_google_baseline_name folder = if has_v folder.filename then folder.has_snapshot else false

-- one turn of the loop of latestBaseline
unfoldable pub consider_folder :
    Option (Baseline × Bytes) → Folder → Result (Option (Baseline × Bytes))
consider_folder latest folder =
    if not folder.is_directory || not (is_google_baseline_name folder)
    then ok latest
    else (do current ← parse_baseline folder.filename; ok (newer latest current folder.filename))

unfoldable pub folders_loop :
    Option (Baseline × Bytes) → List Folder → Result (Option (Baseline × Bytes))
folders_loop latest [] = ok latest
folders_loop latest (folder ∷ folders) = do
  latest' ← consider_folder latest folder
  folders_loop latest' folders

unfoldable pub latest_google_baseline : List Folder → Result Bytes
latest_google_baseline folders = do
  latest ← folders_loop none folders
  elim latest [
    | none ↦ throw (codes "No baseline snapshots found.")
    | some (baseline, dir) ↦
        ok (codes "benchmarks/baselines/" ++ dir ++ codes "/g" ++ dir ++ codes ".json")
  ]

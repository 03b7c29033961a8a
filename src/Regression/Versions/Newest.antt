-- ===== src/Regression/Versions/Newest.antt =====
-- regression/custom/support/helpers.h, latestBaseline and the collecting loop of printList: the
-- baselines of a directory, and the newest of them.
pub mod Maximum
use rate_throttle.Prelude.{
  ℕ, Bool, true, false, ◌&&◌, ◌||◌, not, List, [], ◌∷◌, ◌++◌, if◌then◌else◌, Option, none, some,
}
use rate_throttle.Text.{Bytes, codes, Result, ok, throw, ◌>>=◌}
use rate_throttle.Regression.Versions.{Baseline, Entry, has_v, parse_baseline, baseline_lt}

unfoldable pub is_custom_baseline_name : Bytes → Bool
is_custom_baseline_name name = has_v name

-- `found`, `latest` and `latestDir` are one option.
unfoldable pub newer : Option (Baseline × Bytes) → Baseline → Bytes → Option (Baseline × Bytes)
newer none current dir = some (current, dir)
newer (some (latest, latest_dir)) current dir =
    if baseline_lt latest current then some (current, dir) else some (latest, latest_dir)

-- one turn of the loop, with its two `continue`s
unfoldable pub consider : Option (Baseline × Bytes) → Entry → Result (Option (Baseline × Bytes))
consider latest entry =
    if not entry.is_directory || not (is_custom_baseline_name entry.filename)
    then ok latest
    else (do current ← parse_baseline entry.filename; ok (newer latest current entry.filename))

unfoldable pub newest_loop :
    Option (Baseline × Bytes) → List Entry → Result (Option (Baseline × Bytes))
newest_loop latest [] = ok latest
newest_loop latest (entry ∷ entries) = do
  latest' ← consider latest entry
  newest_loop latest' entries

unfoldable pub latest_baseline : List Entry → Result Bytes
latest_baseline entries = do
  latest ← newest_loop none entries
  elim latest [
    | none ↦ throw (codes "No baseline snapshots found.")
    | some (baseline, dir) ↦
        ok (codes "benchmarks/baselines/" ++ dir ++ b'/' ∷ dir ++ codes ".json")
  ]

-- The collecting loop of printList and printMethods.
unfoldable pub collect_baselines : List Entry → Result (List Baseline)
collect_baselines [] = ok []
collect_baselines (entry ∷ entries) =
    let rest = collect_baselines entries in
    if not entry.is_directory || not (is_custom_baseline_name entry.filename)
    then rest
    else (do baseline ← parse_baseline entry.filename; baselines ← rest; ok (baseline ∷ baselines))

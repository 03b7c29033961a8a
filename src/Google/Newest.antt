-- ===== src/Google/Newest.antt =====
-- regression/google/support/helpers.h, latestBaseline: the newest of the folders that hold a snapshot
-- of this tool.
use mathlib.Core.Path.{subst}
use rate_throttle.Prelude.{
  ◌≡◌, refl, sym, ◌∙◌, ◌&&◌, List, [], ◌∷◌, ◌++◌, map, Option, none, some, Bool-cases, inl, inr,
}
use rate_throttle.Text.{Bytes, codes, Result, ok, throw, ◌>>=◌}
use rate_throttle.Regression.Versions.{Baseline, Entry, has_v}
use rate_throttle.Regression.Versions.Order.{
  IsOneOf, NoneNewer, newest, newest-IsOneOf, newest-NoneNewer,
}
use rate_throttle.Regression.Versions.Newest.{
  consider, newest_loop, collect_baselines, is_custom_baseline_name,
}
use rate_throttle.Regression.Versions.Newest.Maximum.{loop-collect, outcome}
use rate_throttle.Google.{
  Folder, is_google_baseline_name, consider_folder, folders_loop, latest_google_baseline,
}

-- A folder without the snapshot is no folder to this tool.
abbrev pub entry_of : Folder → Entry
entry_of f = record { is_directory = f.is_directory && f.has_snapshot; filename = f.filename }

consider-entry :
    (latest : Option (Baseline × Bytes)) (f : Folder)
    → consider_folder latest f ≡ consider latest (entry_of f)
unfolding consider_folder consider is_google_baseline_name is_custom_baseline_name
consider-entry latest f = elim (Bool-cases f.is_directory) [
  | inl e ↦ elim (Bool-cases f.has_snapshot) [
    | inl g ↦ elim (Bool-cases (has_v f.filename)) [ inl v ↦ rw (e, g, v) | inr v ↦ rw (e, g, v) ]
    | inr g ↦ elim (Bool-cases (has_v f.filename)) [ inl v ↦ rw (e, g, v) | inr v ↦ rw (e, g, v) ]
  ]
  | inr e ↦ rw (e)
]

loop-entries :
    (latest : Option (Baseline × Bytes)) (folders : List Folder)
    → folders_loop latest folders ≡ newest_loop latest (map entry_of folders)
unfolding folders_loop newest_loop
loop-entries latest [] = refl
loop-entries latest (f ∷ folders) =
    rw (consider-entry latest f)
      (bind_lem (consider latest (entry_of f)) folders (λ l. loop-entries l folders))
  where
    bind_lem :
        (r : Result (Option (Baseline × Bytes))) (folders : List Folder)
        → ((l : Option (Baseline × Bytes))
            → folders_loop l folders ≡ newest_loop l (map entry_of folders))
        → (r >>= λ l. folders_loop l folders) ≡ (r >>= λ l. newest_loop l (map entry_of folders))
    bind_lem (throw e) folders h = refl
    bind_lem (ok l) folders h = h l

abbrev pub google_path : Bytes → Bytes
google_path dir = codes "benchmarks/baselines/" ++ dir ++ codes "/g" ++ dir ++ codes ".json"

-- The answer is the path of the snapshot of a newest baseline; where there is none, or a name cannot be
-- read, it is the error.
abbrev pub IsNewestSnapshot : Result (List Baseline) → Result Bytes → Type 0
IsNewestSnapshot (throw e) answer = answer ≡ throw e
IsNewestSnapshot (ok []) answer = answer ≡ throw (codes "No baseline snapshots found.")
IsNewestSnapshot (ok (b ∷ bs)) answer =
    (m : Baseline) × IsOneOf m (b ∷ bs) × NoneNewer m (b ∷ bs) × (answer ≡ ok (google_path m.name))

abbrev google_answer : Result (Option (Baseline × Bytes)) → Result Bytes
google_answer r = r >>= λ latest. elim latest [
  | none ↦ throw (codes "No baseline snapshots found.")
  | some (baseline, dir) ↦
      ok (codes "benchmarks/baselines/" ++ dir ++ codes "/g" ++ dir ++ codes ".json")
]

google_lem : (r : Result (List Baseline)) → IsNewestSnapshot r (google_answer (outcome none r))
google_lem (throw e) = refl
google_lem (ok []) = refl
google_lem (ok (b ∷ bs)) = (newest b bs, newest-IsOneOf b bs, newest-NoneNewer b bs, refl)

-- What the google tool's latestBaseline answers about the folders, from the baselines of those that
-- hold its snapshot: the error of a name that cannot be read, an error if there is none, or else the
-- path of the snapshot of such a baseline than which none of them is newer.
pub latest_google-IsNewestSnapshot :
    (folders : List Folder)
    → IsNewestSnapshot (collect_baselines (map entry_of folders)) (latest_google_baseline folders)
unfolding latest_google_baseline
latest_google-IsNewestSnapshot folders =
    subst (λ r. IsNewestSnapshot (collect_baselines (map entry_of folders)) (google_answer r))
      (sym (loop-entries none folders ∙ loop-collect none (map entry_of folders)))
      (google_lem (collect_baselines (map entry_of folders)))

-- ===== src/Google/Tests.antt =====
-- The theorems on the google tool at concrete inputs.
mod Runs
use rate_throttle.Prelude.{◌≡◌, refl, true, false, List, [], ◌∷◌, ◌++◌, map}
use rate_throttle.Text.{codes}
use rate_throttle.Regression.Versions.Newest.{collect_baselines}
use rate_throttle.Google.{Folder, base_name, latest_google_baseline}
use rate_throttle.Google.Names.{base_name-parts}
use rate_throttle.Google.Newest.{entry_of, IsNewestSnapshot, latest_google-IsNewestSnapshot}

base_name-parts_example :
    (base_name ((codes "Insert_One" ++ (b'_' ∷ codes "Impl")) ++ (b'/' ∷ codes "1000"))
      ≡ codes "Insert_One")
    × (base_name (codes "Insert_One" ++ (b'_' ∷ codes "Impl")) ≡ codes "Insert_One")
    × (base_name (codes "Impl") ≡ codes "Impl")
base_name-parts_example =
    base_name-parts (codes "Insert_One") (codes "Impl") (codes "1000")
      (refl, (refl, (refl, (refl, (refl, (refl, (refl, (refl, (refl, (refl, tt))))))))))
      (refl, (refl, (refl, (refl, tt)))) (refl, (refl, (refl, (refl, tt))))

abbrev folders : List Folder
folders =
    record { is_directory = true; filename = codes "v1.2.0"; has_snapshot = true }
    ∷ record { is_directory = true; filename = codes "v1.3.0"; has_snapshot = false }
    ∷ []

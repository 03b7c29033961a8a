-- ===== src/Google/Listing/Shown.antt =====
-- What the listings of the google tool show.
use mathlib.Core.List.{Perm}
use rate_throttle.Prelude.{
  ℕ, suc, ◌≡◌, refl, sym, ◌∙◌, ap, List, [], ◌∷◌, ◌++◌, length, if◌then◌else◌, append_assoc,
  append-nil,
}
use rate_throttle.Text.{Bytes, codes, null, Result}
use rate_throttle.Regression.Groups.Order.{members, group_methods-perm}
use rate_throttle.Regression.Report.{Piece, newline}
use rate_throttle.Regression.Listing.{set_w, box_border, box_row, version_box, letter_line}
use rate_throttle.Regression.Listing.Trees.{
  whites, assoc_lem, gap-whites, IsListing, IsListing-sorted,
}
use rate_throttle.Google.{GoogleResult, Folder, unique_names}
use rate_throttle.Google.Common.{group_methods_by_letter}
use rate_throttle.Google.Listing.{
  name_lines, name_groups, google_listing, collect_folders, print_google_list,
}

whites-names :
    (l j : ℕ) (ms : List Bytes) (ps : List Piece)
    → whites (name_lines l j ms ++ ps) ≡ ms ++ whites ps
unfolding whites name_lines
whites-names l j [] ps = refl
whites-names l j (m ∷ ms) ps = ap (◌∷◌ m) (whites-names l (suc j) ms ps)

whites-name_groups :
    (gs : List (ℕ × List Bytes)) (ps : List Piece)
    → whites (name_groups gs ++ ps) ≡ members gs ++ whites ps
unfolding whites name_groups letter_line
whites-name_groups [] ps = refl
whites-name_groups ((l, ms) ∷ gs) ps =
    ap whites (
      assoc_lem (letter_line l (length ms)) (name_lines l 0 ms)
        (if null gs then [] else newline ∷ []) (name_groups gs) ps)
    ∙ whites-names l 0 ms _
    ∙ ap (◌++◌ ms) (gap-whites gs (name_groups gs ++ ps) ∙ whites-name_groups gs ps)
    ∙ sym (append_assoc ms (members gs) (whites ps))

-- The google tool's listing of a baseline prints, in white, the labels of its box and then the names of
-- its benchmarks, each once.
pub google_listing-names :
    {D : Type 0} (load : Bytes → Result (List (GoogleResult D))) (name : Bytes)
    (results : List (GoogleResult D))
    → (names : List Bytes) × Perm names (unique_names results)
      × (whites (google_listing load name results)
          ≡ set_w 13 (codes "Version") ∷ set_w 13 (codes "Methods") ∷ names)
unfolding whites google_listing version_box box_border box_row
google_listing-names load name results =
    let groups = group_methods_by_letter (unique_names results) in
    (
      members groups,
      group_methods-perm (unique_names results),
      ap (λ xs. set_w 13 (codes "Version") ∷ set_w 13 (codes "Methods") ∷ xs)
          (whites-name_groups groups (newline ∷ []) ∙ append-nil (members groups)),
    )

-- For whatever the directory holds, the google tool's list of versions fails with the error of a name
-- that cannot be read and prints nothing, or it prints each collected baseline's name once, none before
-- an older one, and then their number.
pub print_google_list-IsListing :
    (folders : List Folder) (custom : Bytes)
    → IsListing (collect_folders folders) (print_google_list folders custom)
unfolding print_google_list
print_google_list-IsListing folders custom = IsListing-sorted (collect_folders folders) custom

-- ===== src/Regression/Listing/Trees.antt =====
-- What the trees of the listings show, read off the colours of the printed pieces.
use mathlib.Core.List.{Perm}
use Prim.Native.Nat.{min}
use rate_throttle.Prelude.{
  ℕ, suc, ◌+◌, ◌≡◌, refl, sym, ◌∙◌, ap, Bool, true, false, List, [], ◌∷◌, ◌++◌, map, length,
  if◌then◌else◌, append_assoc, none, some, ◌==◌, append-nil,
}
use rate_throttle.Text.{Bytes, codes, null, Result, ok, throw}
use rate_throttle.Text.Decimal.{to_string}
use rate_throttle.Regression.Results.{BenchmarkResult, unique_operations}
use rate_throttle.Regression.Results.Methods.{
  occurrences, occurrences-perm, unique_operations-occurrences,
}
use rate_throttle.Regression.Groups.{group_methods_by_letter}
use rate_throttle.Regression.Groups.Order.{members, group_methods-perm}
use rate_throttle.Regression.Versions.{Baseline, Entry}
use rate_throttle.Regression.Versions.Newest.{collect_baselines}
use rate_throttle.Regression.Report.{Piece, style, text, newline}
use rate_throttle.Regression.Listing.{
  box_border, box_row, version_box, member_lines, letter_line, group_lines, listing, version_lines,
  count_row, count_box, list_pieces, print_list, sort_baselines, set_w, Printed,
}
use rate_throttle.Regression.Listing.Order.{OldestFirst, sort_baselines-OldestFirst}

unfoldable pub same_bytes : Bytes → Bytes → Bool
same_bytes [] [] = true
same_bytes [] (d ∷ t) = false
same_bytes (c ∷ s) [] = false
same_bytes (c ∷ s) (d ∷ t) = let rest = same_bytes s t in if c == d then rest else false

-- The texts that are printed in one colour: those right behind the style of the colour's code.
unfoldable pub coloured_from : Bytes → Bool → List Piece → List Bytes
unfolding same_bytes
coloured_from code on [] = []
coloured_from code on (style s ∷ ps) = coloured_from code (same_bytes s code) ps
coloured_from code true (text t ∷ ps) = t ∷ coloured_from code false ps
coloured_from code false (text t ∷ ps) = coloured_from code false ps

unfoldable pub whites : List Piece → List Bytes
unfolding coloured_from
whites = coloured_from (0x1B ∷ codes "[97m") false

unfoldable pub greens : List Piece → List Bytes
unfolding coloured_from
greens = coloured_from (0x1B ∷ codes "[92m") false

whites-members :
    (l w j : ℕ) (ms : List Bytes) (ps : List Piece)
    → whites (member_lines l w j ms ++ ps) ≡ ms ++ whites ps
unfolding whites member_lines
whites-members l w j [] ps = refl
whites-members l w j (m ∷ ms) ps = ap (◌∷◌ m) (whites-members l w (suc j) ms ps)

pub assoc_lem : (a b c d e : List Piece) → (((a ++ b) ++ c) ++ d) ++ e ≡ a ++ (b ++ (c ++ (d ++ e)))
assoc_lem a b c d e =
    append_assoc ((a ++ b) ++ c) d e
    ∙ append_assoc (a ++ b) c (d ++ e)
    ∙ append_assoc a b (c ++ (d ++ e))

pub gap-whites :
    (gs : List (ℕ × List Bytes)) (ps : List Piece)
    → whites ((if null gs then [] else newline ∷ []) ++ ps) ≡ whites ps
unfolding whites
gap-whites [] ps = refl
gap-whites (g ∷ gs) ps = refl

whites-groups :
    (gs : List (ℕ × List Bytes)) (ps : List Piece)
    → whites (group_lines gs ++ ps) ≡ members gs ++ whites ps
unfolding whites group_lines letter_line
whites-groups [] ps = refl
whites-groups ((l, ms) ∷ gs) ps =
    let w = length (to_string (length ms)) + 1 in
    ap whites (
      assoc_lem (letter_line l (length ms)) (member_lines l w 0 ms)
        (if null gs then [] else newline ∷ []) (group_lines gs) ps)
    ∙ whites-members l w 0 ms _
    ∙ ap (◌++◌ ms) (gap-whites gs (group_lines gs ++ ps) ∙ whites-groups gs ps)
    ∙ sym (append_assoc ms (members gs) (whites ps))

versions-greens :
    (bs : List Baseline) (ps : List Piece)
    → greens (version_lines bs ++ ps) ≡ map (λ b. b.name) bs ++ greens ps
unfolding greens version_lines
versions-greens [] ps = refl
versions-greens (b ∷ bs) ps = ap (◌∷◌ b.name) (versions-greens bs ps)

-- The version tags are printed in the order of the list, and their number below them.
greens-list :
    (custom : Bytes) (bs : List Baseline)
    → greens (list_pieces custom bs) ≡ map (λ b. b.name) bs ++ to_string (length bs) ∷ []
unfolding greens list_pieces count_box box_border count_row
greens-list custom bs = versions-greens bs _

-- What printList does: it fails as the listing does, or prints the collected baselines from the oldest
-- to the newest, and their number.
abbrev pub IsListing : Result (List Baseline) → Printed → Type 0
IsListing (throw e) p = (p.pieces ≡ []) × (p.error ≡ some e)
IsListing (ok bs) p =
    (p.error ≡ none)
    × (sorted : List Baseline) × OldestFirst sorted
    × Perm sorted bs
    × (greens p.pieces ≡ map (λ b. b.name) sorted ++ to_string (length sorted) ∷ [])

pub IsListing-sorted :
    (r : Result (List Baseline)) (custom : Bytes)
    → IsListing r (elim r [
      | throw e ↦ record { pieces = []; error = some e }
      | ok baselines ↦ record {
        pieces = list_pieces custom (sort_baselines baselines);
        error = none;
      }
    ])
IsListing-sorted (throw e) custom = (refl, refl)
IsListing-sorted (ok bs) custom =
    let (sorted, perm) = sort_baselines-OldestFirst bs in
    (refl, sort_baselines bs, sorted, perm, greens-list custom (sort_baselines bs))

-- For whatever the directory holds, the list of versions fails with the error of a name that cannot be
-- read and prints nothing, or it prints each collected baseline's name once, none before an older one,
-- and then their number.
pub print_list-IsListing :
    (entries : List Entry) (custom : Bytes)
    → IsListing (collect_baselines entries) (print_list entries custom)
unfolding print_list
print_list-IsListing entries custom = IsListing-sorted (collect_baselines entries) custom

-- The listing of a baseline prints, in white, the labels of its box and then each operation of its
-- results exactly once, and no other name.
pub listing-methods :
    {D : Type 0} (load : Bytes → Result (List (BenchmarkResult D))) (name : Bytes)
    (results : List (BenchmarkResult D))
    → (names : List Bytes) × ((x : Bytes)
        → occurrences x names ≡ min 1 (occurrences x (map (λ r. r.operation) results)))
      × (whites (listing load name results)
          ≡ set_w 13 (codes "Version") ∷ set_w 13 (codes "Methods") ∷ names)
unfolding whites listing version_box box_border box_row
listing-methods load name results =
    let operations = unique_operations results in
    let groups = group_methods_by_letter operations in
    (
      members groups,
      λ x.
          occurrences-perm x (group_methods-perm operations)
          ∙ unique_operations-occurrences x results,
      ap (λ xs. set_w 13 (codes "Version") ∷ set_w 13 (codes "Methods") ∷ xs)
          (whites-groups groups (newline ∷ []) ∙ append-nil (members groups)),
    )

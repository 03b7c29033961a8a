-- ===== src/Regression/Groups.antt =====
-- regression/custom/support/helpers.h, groupMethodsByLetter: the methods sorted without regard to case
-- and cut into groups by their first letter. std::sort leaves the order of names that differ only in
-- case open; here they keep the order in which they came.
pub mod Order
pub mod Letters
use rate_throttle.Prelude.{ℕ, Bool, true, false, List, [], ◌∷◌, ◌++◌, ltb, ◌==◌, if◌then◌else◌}
use rate_throttle.Text.{Bytes, to_upper}

-- std::lexicographical_compare over std::toupper
unfoldable pub less_ci : Bytes → Bytes → Bool
less_ci [] [] = false
less_ci [] (y ∷ ys) = true
less_ci (x ∷ xs) [] = false
less_ci (x ∷ xs) (y ∷ ys) =
    let rest = less_ci xs ys in
    if ltb (to_upper x) (to_upper y)
    then true
    else if ltb (to_upper y) (to_upper x)
    then false
    else rest

-- `x` came before the names of the list, so it goes in front of those that are equivalent to it.
insert_sorted : Bytes → List Bytes → List Bytes
insert_sorted x [] = x ∷ []
insert_sorted x (y ∷ ys) =
    let rest = insert_sorted x ys in if less_ci y x then y ∷ rest else x ∷ y ∷ ys

unfoldable pub sort_ci : List Bytes → List Bytes
unfolding insert_sorted less_ci
sort_ci [] = []
sort_ci (x ∷ xs) = insert_sorted x (sort_ci xs)

-- the letter of a group, `?` for an empty name
unfoldable pub letter_of : Bytes → ℕ
letter_of [] = b'?'
letter_of (c ∷ s) = to_upper c

-- `groups.back()` takes the name if its letter is the name's; else a new group does.
pub push_group : List (ℕ × List Bytes) → ℕ → Bytes → List (ℕ × List Bytes)
push_group [] letter operation = (letter, operation ∷ []) ∷ []
push_group ((l, members) ∷ []) letter operation =
    if l == letter
    then (l, members ++ operation ∷ []) ∷ []
    else (l, members) ∷ (letter, operation ∷ []) ∷ []
push_group (g ∷ g' ∷ groups) letter operation = g ∷ push_group (g' ∷ groups) letter operation

group_loop : List (ℕ × List Bytes) → List Bytes → List (ℕ × List Bytes)
group_loop groups [] = groups
group_loop groups (operation ∷ operations) =
    group_loop (push_group groups (letter_of operation) operation) operations

unfoldable pub group_methods_by_letter : List Bytes → List (ℕ × List Bytes)
unfolding sort_ci push_group group_loop letter_of
group_methods_by_letter operations = group_loop [] (sort_ci operations)

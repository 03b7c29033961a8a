-- ===== src/Regression/MethodIds.antt =====
-- regression/custom/support/helpers.h: the ids that the `methods` listing prints (a letter and a
-- number, or a letter alone), and how they are resolved against a baseline. `load` stands for
-- loadResults, whose file and JSON reading is outside the model.
pub mod RoundTrip
use rate_throttle.Prelude.{
  ℕ, zero, suc, ◌+◌, ◌-◌, Bool, true, false, ◌&&◌, ◌||◌, not, List, [], ◌∷◌, ◌++◌, ltb, leb, ◌==◌,
  if◌then◌else◌, length, get_or,
}
use rate_throttle.Text.{Bytes, codes, to_upper, is_alpha, is_digit, null, Result, ok, throw, ◌>>=◌}
use rate_throttle.Text.Decimal.{to_string, stoul}
use rate_throttle.Regression.Results.{BenchmarkResult, unique_operations}
use rate_throttle.Regression.Groups.{group_methods_by_letter}

-- `s.front()`; callers have checked that there is one
abbrev pub front : Bytes → ℕ
front [] = 0
front (c ∷ s) = c

-- `s.substr(1)`
abbrev pub substr_1 : Bytes → Bytes
substr_1 [] = []
substr_1 (c ∷ s) = s

unfoldable pub all_digits : Bytes → Bool
all_digits [] = true
all_digits (c ∷ s) = let rest = all_digits s in if not (is_digit c) then false else rest

unfoldable pub looks_like_method_id : Bytes → Bool
looks_like_method_id s =
    if ltb (length s) 2 || not (is_alpha (front s)) then false else all_digits (substr_1 s)

unfoldable pub looks_like_letter_group : Bytes → Bool
looks_like_letter_group s = length s == 1 && is_alpha (front s)

-- the loop over the groups
unfoldable pub pick_method : Bytes → ℕ → ℕ → List (ℕ × List Bytes) → Result Bytes
pick_method id letter index [] = throw (codes "Unknown method id: '" ++ id ++ codes "'.")
pick_method id letter index ((group_letter, members) ∷ groups) =
    let rest = pick_method id letter index groups in
    if not (group_letter == letter)
    then rest
    else if index == 0 || ltb (length members) index
    then throw (
        codes "Method id '"
        ++ id
        ++ codes "' is out of range for '"
        ++ letter ∷ codes "' (only "
        ++ to_string (length members)
        ++ codes ").")
    else ok (get_or members (index - 1) [])

unfoldable pub pick_group : Bytes → ℕ → List (ℕ × List Bytes) → Result (List Bytes)
pick_group letter_arg letter [] =
    throw (codes "Unknown method group: '" ++ letter_arg ++ codes "'.")
pick_group letter_arg letter ((group_letter, members) ∷ groups) =
    let rest = pick_group letter_arg letter groups in
    if group_letter == letter then ok members else rest

module _ {D : Type 0} (load : Bytes → Result (List (BenchmarkResult D))) where
  unfoldable pub resolve_method_id : Bytes → Bytes → Result Bytes
  resolve_method_id id file = do
    index ← stoul (substr_1 id)
    results ← load file
    pick_method id (to_upper (front id)) index (group_methods_by_letter (unique_operations results))

  unfoldable pub resolve_letter_group : Bytes → Bytes → Result (List Bytes)
  resolve_letter_group letter_arg file = do
    results ← load file
    pick_group letter_arg (to_upper (front letter_arg))
        (group_methods_by_letter (unique_operations results))

-- `std::string(1, letter) + std::to_string(j + 1)`, the id that printMethods prints for member `j`
unfoldable pub method_id : ℕ → ℕ → Bytes
method_id letter j = letter ∷ to_string (j + 1)

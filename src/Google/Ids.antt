-- ===== src/Google/Ids.antt =====
-- regression/google/support/helpers.h: the ids of the listing, resolved against a baseline's names.
-- `load` stands for loadResults.
use rate_throttle.Prelude.{ℕ, ◌+◌, ◌^◌, ◌<◌, ◌≡◌, List, [], ◌∷◌, some, get_elem?}
use rate_throttle.Text.{Bytes, to_upper, Result, ok, ◌>>=◌}
use rate_throttle.Text.Decimal.{to_string, stoul, stoul-to_string}
use rate_throttle.Regression.MethodIds.{front, substr_1, method_id}
use rate_throttle.Regression.MethodIds.RoundTrip.{
  HasGroup, to_upper_group, pick_method_lem, pick_group_lem,
}
use rate_throttle.Regression.Groups.Order.{AllNamed}
use rate_throttle.Regression.Groups.Letters.{group_methods-AllLabelled, group_methods-Rising}
use rate_throttle.Google.{GoogleResult, unique_names}
use rate_throttle.Google.Common.{pick_method, pick_group, group_methods_by_letter}

module _ {D : Type 0} (load : Bytes → Result (List (GoogleResult D))) where
  unfoldable pub resolve_name_id : Bytes → Bytes → Result Bytes
  resolve_name_id id file = do
    index ← stoul (substr_1 id)
    results ← load file
    pick_method id (to_upper (front id)) index (group_methods_by_letter (unique_names results))

  unfoldable pub resolve_name_group : Bytes → Bytes → Result (List Bytes)
  resolve_name_group letter_arg file = do
    results ← load file
    pick_group letter_arg (to_upper (front letter_arg))
        (group_methods_by_letter (unique_names results))

  module _ (file : Bytes) (results : List (GoogleResult D)) (l : ℕ) (ms : List Bytes) where
    -- If the file is loaded and none of its benchmarks has an empty name, then the letter of a group
    -- is resolved to the group's members, and the id of the member at `j`, for `j` + 1 below 2 ^ 64,
    -- to this member.
    pub resolve-names :
        load file ≡ ok results
        → AllNamed (unique_names results)
        → HasGroup l ms (group_methods_by_letter (unique_names results))
        → (resolve_name_group (l ∷ []) file ≡ ok ms)
          × ((j : ℕ) (name : Bytes)
              → get_elem? ms j ≡ some name
              → j + 1 < 2 ^ 64
              → resolve_name_id (method_id l j) file ≡ ok name)
    unfolding resolve_name_group resolve_name_id method_id
    resolve-names loaded named group =
        let names = unique_names results in
        let groups = group_methods_by_letter names in
        let upper = to_upper_group l ms groups (group_methods-AllLabelled names) group in
        let rising = group_methods-Rising names named in
        (
          rw (loaded, upper) (pick_group_lem (l ∷ []) 0 l ms groups rising group),
          λ j name member fits.
              rw (stoul-to_string (j + 1) fits, loaded, upper)
                (pick_method_lem (l ∷ to_string (j + 1)) 0 l j ms name groups rising group member),
        )

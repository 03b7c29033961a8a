-- ===== src/Regression/MethodIds/RoundTrip.antt =====
-- The ids that `methods` prints, resolved by the command line.
use rate_throttle.Prelude.{
  ℕ, zero, suc, ◌+◌, ◌-◌, ◌^◌, ◌≤◌, ◌<◌, ◌≡◌, refl, ◌≢◌, ◌⊎◌, inl, inr, true, false, List, [], ◌∷◌,
  arith, length, get_or, some, get_elem?,
}
use rate_throttle.Text.{Bytes, to_upper, to_upper_idem, is_alpha, null, Result, ok}
use rate_throttle.Text.Decimal.{
  to_string, stoul-to_string, to_string-AllDigits, to_string-HasHead, AllDigits,
}
use rate_throttle.Regression.Results.{BenchmarkResult, unique_operations}
use rate_throttle.Regression.Groups.{letter_of, group_methods_by_letter}
use rate_throttle.Regression.Groups.Order.{AllLabelled, AllBegin, Rising, AllNamed}
use rate_throttle.Regression.Groups.Letters.{group_methods-AllLabelled, group_methods-Rising}
use rate_throttle.Regression.MethodIds.{
  all_digits, looks_like_method_id, looks_like_letter_group, pick_method, pick_group,
  resolve_method_id, resolve_letter_group, method_id,
}

-- The letter heads the group with these members.
abbrev pub HasGroup : ℕ → List Bytes → List (ℕ × List Bytes) → Type 0
HasGroup l ms [] = ⊥
HasGroup l ms ((m, ns) ∷ gs) = ((m ≡ l) × (ns ≡ ms)) ⊎ HasGroup l ms gs

to_upper-letter_of : (x : Bytes) → to_upper (letter_of x) ≡ letter_of x
unfolding letter_of
to_upper-letter_of [] = unfold to_upper in refl
to_upper-letter_of (c ∷ s) = to_upper_idem c

to_upper_begin : (l : ℕ) (ms : List Bytes) → ms ≢ [] → AllBegin l ms → to_upper l ≡ l
to_upper_begin l [] n h = absurd (n refl)
to_upper_begin l (x ∷ ms) n h = cc (to_upper-letter_of x, h.0)

-- The letter of a group is its own upper case.
pub to_upper_group :
    (l : ℕ) (ms : List Bytes) (gs : List (ℕ × List Bytes))
    → AllLabelled gs
    → HasGroup l ms gs
    → to_upper l ≡ l
to_upper_group l ms [] a h = absurd h
to_upper_group l ms ((m, ns) ∷ gs) a (inl (e, f)) = rw (← e) (to_upper_begin m ns a.0 a.1)
to_upper_group l ms ((m, ns) ∷ gs) a (inr h) = to_upper_group l ms gs a.2 h

Rising-le :
    (low l : ℕ) (ms : List Bytes) (gs : List (ℕ × List Bytes))
    → Rising low gs
    → HasGroup l ms gs
    → low ≤ l
Rising-le low l ms [] r h = absurd h
Rising-le low l ms ((m, ns) ∷ gs) r (inl (e, f)) = omega arith
Rising-le low l ms ((m, ns) ∷ gs) r (inr h) = omega (arith, Rising-le (suc m) l ms gs r.1 h)

get_or_of_get_elem? :
    (ms : List Bytes) (j : ℕ) (name : Bytes)
    → get_elem? ms j ≡ some name
    → (j < length ms) × (get_or ms j [] ≡ name)
get_or_of_get_elem? [] j name h = ground arith
get_or_of_get_elem? (x ∷ ms) zero name h = ground arith
get_or_of_get_elem? (x ∷ ms) (suc j) name h = ground (arith, get_or_of_get_elem? ms j name)

pub pick_method_lem :
    (id : Bytes) (low l j : ℕ) (ms : List Bytes) (name : Bytes) (gs : List (ℕ × List Bytes))
    → Rising low gs
    → HasGroup l ms gs
    → get_elem? ms j ≡ some name
    → pick_method id l (j + 1) gs ≡ ok name
unfolding pick_method
pick_method_lem id low l j ms name [] r h e = absurd h
pick_method_lem id low l j ms name ((m, ns) ∷ gs) r (inl (same, f)) e =
    let (lt, got) = get_or_of_get_elem? ns j name (rw f e) in
    let index : j + 1 - 1 ≡ j = omega arith in
    let got' : get_or ns (j + 1 - 1) [] ≡ name = rw index got in
    let room : j < length ns = lt in ground (arith, got', room)
pick_method_lem id low l j ms name ((m, ns) ∷ gs) r (inr h) e =
    ground
      (arith, Rising-le (suc m) l ms gs r.1 h, pick_method_lem id (suc m) l j ms name gs r.1 h e)

pub pick_group_lem :
    (arg : Bytes) (low l : ℕ) (ms : List Bytes) (gs : List (ℕ × List Bytes))
    → Rising low gs
    → HasGroup l ms gs
    → pick_group arg l gs ≡ ok ms
unfolding pick_group
pick_group_lem arg low l ms [] r h = absurd h
pick_group_lem arg low l ms ((m, ns) ∷ gs) r (inl (same, f)) = ground arith
pick_group_lem arg low l ms ((m, ns) ∷ gs) r (inr h) =
    ground (arith, Rising-le (suc m) l ms gs r.1 h, pick_group_lem arg (suc m) l ms gs r.1 h)

module _ {D : Type 0} (load : Bytes → Result (List (BenchmarkResult D))) (file : Bytes)
    (results : List (BenchmarkResult D)) (l : ℕ) (ms : List Bytes) where
  -- The id that the listing prints for the member at `j` of a group of the baseline is resolved to
  -- that member, if the file is loaded, `j` + 1 is below 2 ^ 64 and no method of the baseline has an
  -- empty name.
  pub resolve-method_id :
      (j : ℕ) (name : Bytes)
      → load file ≡ ok results
      → AllNamed (unique_operations results)
      → HasGroup l ms (group_methods_by_letter (unique_operations results))
      → get_elem? ms j ≡ some name
      → j + 1 < 2 ^ 64
      → resolve_method_id load (method_id l j) file ≡ ok name
  unfolding resolve_method_id method_id
  resolve-method_id j name loaded named group member fits =
      let ops = unique_operations results in
      rw
        (
          stoul-to_string (j + 1) fits,
          loaded,
          to_upper_group l ms (group_methods_by_letter ops) (group_methods-AllLabelled ops) group,
        )
        (pick_method_lem (l ∷ to_string (j + 1)) 0 l j ms name (group_methods_by_letter ops)
          (group_methods-Rising ops named) group member)

  -- The letter of a group of the baseline is resolved to the members of the group in the order of
  -- the listing, if the file is loaded and no method of the baseline has an empty name.
  pub resolve-letter :
      load file ≡ ok results
      → AllNamed (unique_operations results)
      → HasGroup l ms (group_methods_by_letter (unique_operations results))
      → resolve_letter_group load (l ∷ []) file ≡ ok ms
  unfolding resolve_letter_group
  resolve-letter loaded named group =
      let ops = unique_operations results in
      rw
        (
          loaded,
          to_upper_group l ms (group_methods_by_letter ops) (group_methods-AllLabelled ops) group,
        )
        (pick_group_lem (l ∷ []) 0 l ms (group_methods_by_letter ops)
          (group_methods-Rising ops named) group)

all_digits_of_AllDigits : (s : Bytes) → AllDigits s → all_digits s ≡ true
unfolding all_digits
all_digits_of_AllDigits [] h = refl
all_digits_of_AllDigits (c ∷ s) h = ground (arith, all_digits_of_AllDigits s h.1)

length_pos : (s : Bytes) → null s ≡ false → 0 < length s
length_pos [] h = cc
length_pos (c ∷ s) h = omega arith

-- The id that is printed for any member of a group under a letter of the alphabet is taken for a
-- method id and not for a letter group.
pub looks_like-method_id :
    (l j : ℕ)
    → is_alpha l ≡ true
    → (looks_like_method_id (method_id l j) ≡ true)
      × (looks_like_letter_group (method_id l j) ≡ false)
unfolding looks_like_method_id looks_like_letter_group method_id
looks_like-method_id l j a = ground (
  arith,
  all_digits_of_AllDigits (to_string (j + 1)) (to_string-AllDigits (j + 1)),
  length_pos (to_string (j + 1)) (to_string-HasHead (j + 1)),
)

-- ===== src/Regression/Groups/Letters.antt =====
-- The letters of the groups and the names of their members.
use mathlib.Core.Path.{subst}
use rate_throttle.Prelude.{
  ℕ, ◌+◌, ◌<◌, ◌⊎◌, ◌≤◌, ◌≡◌, refl, ◌≢◌, inl, inr, true, false, List, [], ◌∷◌, arith, Bool-cases,
}
use rate_throttle.Text.{Bytes, to_upper}
use rate_throttle.Regression.Groups.{
  less_ci, insert_sorted, sort_ci, letter_of, push_group, group_loop, group_methods_by_letter,
}
use rate_throttle.Regression.Groups.Order.{
  AllLabelled, AllBegin, Rising, UpTo, Ordered, AllNamed, push_group-AllLabelled, push_group-Rising,
  push_group-UpTo, UpTo-le,
}

group_loop-AllLabelled :
    (gs : List (ℕ × List Bytes)) (ops : List Bytes)
    → AllLabelled gs
    → AllLabelled (group_loop gs ops)
unfolding group_loop
group_loop-AllLabelled gs [] h = h
group_loop-AllLabelled gs (op ∷ ops) h =
    group_loop-AllLabelled (push_group gs (letter_of op) op) ops (push_group-AllLabelled gs op h)

pub group_methods-AllLabelled : (ops : List Bytes) → AllLabelled (group_methods_by_letter ops)
unfolding group_methods_by_letter
group_methods-AllLabelled ops = group_loop-AllLabelled [] (sort_ci ops) tt

-- `l` is the first character of a name in upper case, or `?` if the name is empty.
abbrev pub IsInitial : ℕ → Bytes → Type 0
IsInitial l [] = l ≡ b'?'
IsInitial l (c ∷ s) =
    ((b'a' ≤ c) × (c ≤ b'z') × (l + 32 ≡ c)) ⊎ (((c < b'a') ⊎ (b'z' < c)) × (l ≡ c))

abbrev pub AllInitial : ℕ → List Bytes → Type 0
AllInitial l [] = Unit
AllInitial l (x ∷ xs) = IsInitial l x × AllInitial l xs

-- Every group has a member, and its letter is the initial of all its members.
abbrev pub AllHeaded : List (ℕ × List Bytes) → Type 0
AllHeaded [] = Unit
AllHeaded ((l, ms) ∷ gs) = (ms ≢ []) × AllInitial l ms × AllHeaded gs

letter_of-IsInitial : (x : Bytes) → IsInitial (letter_of x) x
unfolding letter_of to_upper
letter_of-IsInitial [] = refl
letter_of-IsInitial (c ∷ s) = ground arith

AllBegin-AllInitial : (l : ℕ) (ms : List Bytes) → AllBegin l ms → AllInitial l ms
AllBegin-AllInitial l [] h = tt
AllBegin-AllInitial l (x ∷ xs) h =
    (subst (λ k. IsInitial k x) h.0 (letter_of-IsInitial x), AllBegin-AllInitial l xs h.1)

AllLabelled-AllHeaded : (gs : List (ℕ × List Bytes)) → AllLabelled gs → AllHeaded gs
AllLabelled-AllHeaded [] h = tt
AllLabelled-AllHeaded ((l, ms) ∷ gs) h =
    (h.0, AllBegin-AllInitial l ms h.1, AllLabelled-AllHeaded gs h.2)

-- Every group has a member, and the letter of the group is the first character of each of its members
-- in upper case, or `?` for an empty name.
pub group_methods-AllHeaded : (ops : List Bytes) → AllHeaded (group_methods_by_letter ops)
group_methods-AllHeaded ops =
    AllLabelled-AllHeaded (group_methods_by_letter ops) (group_methods-AllLabelled ops)

group_loop-Rising :
    (gs : List (ℕ × List Bytes)) (ops : List Bytes) (last : ℕ)
    → Rising 0 gs
    → UpTo last gs
    → Ordered last ops
    → Rising 0 (group_loop gs ops)
unfolding group_loop
group_loop-Rising gs [] last r u o = r
group_loop-Rising gs (op ∷ ops) last r u o =
    let l = letter_of op in
    let u' : UpTo l gs = UpTo-le last l gs o.0 u in
    group_loop-Rising (push_group gs l op) ops l (push_group-Rising 0 gs l op (omega arith) r u')
      (push_group-UpTo gs l op u') o.1

letters_of_less : (x y : Bytes) → x ≢ [] → y ≢ [] → less_ci x y ≡ true → letter_of x ≤ letter_of y
unfolding less_ci letter_of
letters_of_less [] y nx ny h = absurd (nx refl)
letters_of_less (a ∷ x) [] nx ny h = absurd (ny refl)
letters_of_less (a ∷ x) (b ∷ y) nx ny h = ground arith

letters_of_not_less :
    (x y : Bytes) → x ≢ [] → y ≢ [] → less_ci x y ≡ false → letter_of y ≤ letter_of x
unfolding less_ci letter_of
letters_of_not_less [] y nx ny h = absurd (nx refl)
letters_of_not_less (a ∷ x) [] nx ny h = absurd (ny refl)
letters_of_not_less (a ∷ x) (b ∷ y) nx ny h = ground arith

insert_sorted-Ordered :
    (low : ℕ) (x : Bytes) (ys : List Bytes)
    → x ≢ []
    → AllNamed ys
    → low ≤ letter_of x
    → Ordered low ys
    → Ordered low (insert_sorted x ys)
unfolding insert_sorted
insert_sorted-Ordered low x [] nx n h o = (h, tt)
insert_sorted-Ordered low x (y ∷ ys) nx n h o = elim (Bool-cases (less_ci y x)) [
  | inl less ↦
      rw less
        (o.0, insert_sorted-Ordered (letter_of y) x ys nx n.1 (letters_of_less y x n.0 nx less) o.1)
  | inr not_less ↦ rw not_less (h, (letters_of_not_less y x n.0 nx not_less, o.1))
]

insert_sorted-AllNamed :
    (x : Bytes) (ys : List Bytes) → x ≢ [] → AllNamed ys → AllNamed (insert_sorted x ys)
unfolding insert_sorted
insert_sorted-AllNamed x [] nx n = (nx, tt)
insert_sorted-AllNamed x (y ∷ ys) nx n = elim (Bool-cases (less_ci y x)) [
  | inl less ↦ rw less (n.0, insert_sorted-AllNamed x ys nx n.1)
  | inr not_less ↦ rw not_less (nx, n)
]

sort_ci-AllNamed : (xs : List Bytes) → AllNamed xs → AllNamed (sort_ci xs)
unfolding sort_ci
sort_ci-AllNamed [] n = tt
sort_ci-AllNamed (x ∷ xs) n = insert_sorted-AllNamed x (sort_ci xs) n.0 (sort_ci-AllNamed xs n.1)

sort_ci-Ordered : (xs : List Bytes) → AllNamed xs → Ordered 0 (sort_ci xs)
unfolding sort_ci
sort_ci-Ordered [] n = tt
sort_ci-Ordered (x ∷ xs) n =
    insert_sorted-Ordered 0 x (sort_ci xs) n.0 (sort_ci-AllNamed xs n.1) (omega arith)
      (sort_ci-Ordered xs n.1)

-- If no method has an empty name, the letters of the groups rise strictly.
pub group_methods-Rising :
    (ops : List Bytes) → AllNamed ops → Rising 0 (group_methods_by_letter ops)
unfolding group_methods_by_letter
group_methods-Rising ops n = group_loop-Rising [] (sort_ci ops) 0 tt tt (sort_ci-Ordered ops n)

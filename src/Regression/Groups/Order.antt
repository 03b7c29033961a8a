-- ===== src/Regression/Groups/Order.antt =====
-- The members of the groups, and the order of their letters.
use mathlib.Core.List.{Perm}
use mathlib.Core.List.Perm
use rate_throttle.Prelude.{
  ℕ, suc, ◌≤◌, ◌≡◌, refl, sym, ◌≢◌, inl, inr, true, false, List, [], ◌∷◌, ◌++◌, ◌==◌, arith,
  append-nil, append_assoc, ap, ◌∙◌, Bool-cases,
}
use rate_throttle.Text.{Bytes}
use rate_throttle.Regression.Groups.{
  less_ci, insert_sorted, sort_ci, letter_of, push_group, group_loop, group_methods_by_letter,
}

less_ci_asymm : (x y : Bytes) → less_ci x y ≡ true → less_ci y x ≡ false
unfolding less_ci
less_ci_asymm [] [] h = cc
less_ci_asymm [] (b ∷ y) h = refl
less_ci_asymm (a ∷ x) [] h = cc
less_ci_asymm (a ∷ x) (b ∷ y) h = ground (arith, less_ci_asymm x y)

-- No name stands before one that is smaller.
abbrev pub IsSorted : List Bytes → Type 0
IsSorted [] = Unit
IsSorted (x ∷ []) = Unit
IsSorted (x ∷ y ∷ ys) = (less_ci y x ≡ false) × IsSorted (y ∷ ys)

insert_sorted-IsSorted : (x : Bytes) (ys : List Bytes) → IsSorted ys → IsSorted (insert_sorted x ys)
unfolding insert_sorted
insert_sorted-IsSorted x [] h = tt
insert_sorted-IsSorted x (y ∷ []) h = ground (arith, less_ci_asymm y x)
insert_sorted-IsSorted x (y ∷ z ∷ ys) h =
    ground (arith, less_ci_asymm y x, insert_sorted-IsSorted x (z ∷ ys))

pub sort_ci-IsSorted : (xs : List Bytes) → IsSorted (sort_ci xs)
unfolding sort_ci
sort_ci-IsSorted [] = tt
sort_ci-IsSorted (x ∷ xs) = insert_sorted-IsSorted x (sort_ci xs) (sort_ci-IsSorted xs)

insert_sorted-perm : (x : Bytes) (ys : List Bytes) → Perm (insert_sorted x ys) (x ∷ ys)
unfolding insert_sorted
insert_sorted-perm x [] = Perm.refl (x ∷ [])
insert_sorted-perm x (y ∷ ys) = elim (Bool-cases (less_ci y x)) [
  | inl less ↦ rw less (Perm.trans (Perm.cons y (insert_sorted-perm x ys)) (Perm.swap x y ys))
  | inr not_less ↦ rw not_less (Perm.refl (x ∷ y ∷ ys))
]

pub sort_ci-perm : (xs : List Bytes) → Perm (sort_ci xs) xs
unfolding sort_ci
sort_ci-perm [] = Perm.refl []
sort_ci-perm (x ∷ xs) =
    Perm.trans (insert_sorted-perm x (sort_ci xs)) (Perm.cons x (sort_ci-perm xs))

-- the members of all groups, in order
abbrev pub members : List (ℕ × List Bytes) → List Bytes
members [] = []
members ((l, ms) ∷ gs) = ms ++ members gs

push_group-members :
    (gs : List (ℕ × List Bytes)) (l : ℕ) (op : Bytes)
    → members (push_group gs l op) ≡ members gs ++ op ∷ []
unfolding push_group
push_group-members [] l op = refl
push_group-members ((m, ms) ∷ []) l op = elim (Bool-cases (m == l)) [
  | inl same ↦
      rw same
        (append-nil (ms ++ op ∷ []) ∙ ap (λ (xs : List Bytes). xs ++ op ∷ []) (sym (append-nil ms)))
  | inr other ↦ rw other (ap (λ (xs : List Bytes). xs ++ op ∷ []) (sym (append-nil ms)))
]
push_group-members ((m, ms) ∷ g' ∷ gs) l op =
    ap (◌++◌ ms) (push_group-members (g' ∷ gs) l op)
    ∙ sym (append_assoc ms (members (g' ∷ gs)) (op ∷ []))

group_loop-members :
    (gs : List (ℕ × List Bytes)) (ops : List Bytes)
    → members (group_loop gs ops) ≡ members gs ++ ops
unfolding group_loop
group_loop-members gs [] = sym (append-nil (members gs))
group_loop-members gs (op ∷ ops) =
    group_loop-members (push_group gs (letter_of op) op) ops
    ∙ ap (λ (xs : List Bytes). xs ++ ops) (push_group-members gs (letter_of op) op)
    ∙ append_assoc (members gs) (op ∷ []) ops

-- The members of the groups, one group after the other, are a permutation of the methods that were
-- grouped.
pub group_methods-perm : (ops : List Bytes) → Perm (members (group_methods_by_letter ops)) ops
unfolding group_methods_by_letter
group_methods-perm ops = rw (group_loop-members [] (sort_ci ops)) (sort_ci-perm ops)

-- The members of the groups, one group after the other, are sorted: none comes before its left
-- neighbour without regard to case.
pub group_methods-IsSorted : (ops : List Bytes) → IsSorted (members (group_methods_by_letter ops))
unfolding group_methods_by_letter
group_methods-IsSorted ops = rw (group_loop-members [] (sort_ci ops)) (sort_ci-IsSorted ops)

-- Every group has a member, and its members begin with its letter.
abbrev pub AllBegin : ℕ → List Bytes → Type 0
AllBegin l [] = Unit
AllBegin l (x ∷ xs) = (letter_of x ≡ l) × AllBegin l xs

abbrev pub AllLabelled : List (ℕ × List Bytes) → Type 0
AllLabelled [] = Unit
AllLabelled ((l, ms) ∷ gs) = (ms ≢ []) × AllBegin l ms × AllLabelled gs

-- The letters rise strictly from `low` on.
abbrev pub Rising : ℕ → List (ℕ × List Bytes) → Type 0
Rising low [] = Unit
Rising low ((l, ms) ∷ gs) = (low ≤ l) × Rising (suc l) gs

-- No letter is above `high`.
abbrev pub UpTo : ℕ → List (ℕ × List Bytes) → Type 0
UpTo high [] = Unit
UpTo high ((l, ms) ∷ gs) = (l ≤ high) × UpTo high gs

-- The letters of the names never fall, from `low` on.
abbrev pub Ordered : ℕ → List Bytes → Type 0
Ordered low [] = Unit
Ordered low (x ∷ xs) = (low ≤ letter_of x) × Ordered (letter_of x) xs

abbrev pub AllNamed : List Bytes → Type 0
AllNamed [] = Unit
AllNamed (x ∷ xs) = (x ≢ []) × AllNamed xs

AllBegin-append :
    (l : ℕ) (xs : List Bytes) (x : Bytes)
    → AllBegin l xs
    → letter_of x ≡ l
    → AllBegin l (xs ++ x ∷ [])
AllBegin-append l [] x h e = (e, tt)
AllBegin-append l (y ∷ xs) x h e = (h.0, AllBegin-append l xs x h.1 e)

append-ne-nil : (xs : List Bytes) (x : Bytes) → xs ++ x ∷ [] ≢ []
append-ne-nil [] x = cc
append-ne-nil (y ∷ xs) x = cc

pub push_group-AllLabelled :
    (gs : List (ℕ × List Bytes)) (op : Bytes)
    → AllLabelled gs
    → AllLabelled (push_group gs (letter_of op) op)
unfolding push_group
push_group-AllLabelled [] op h = (append-ne-nil [] op, (refl, tt), tt)
push_group-AllLabelled ((m, ms) ∷ []) op h = elim (Bool-cases (m == letter_of op)) [
  | inl same ↦ rw same (append-ne-nil ms op, AllBegin-append m ms op h.1 (ground arith), tt)
  | inr other ↦ rw other (h.0, h.1, (append-ne-nil [] op, (refl, tt), tt))
]
push_group-AllLabelled ((m, ms) ∷ g' ∷ gs) op h =
    (h.0, h.1, push_group-AllLabelled (g' ∷ gs) op h.2)

pub push_group-Rising :
    (low : ℕ) (gs : List (ℕ × List Bytes)) (l : ℕ) (op : Bytes)
    → low ≤ l
    → Rising low gs
    → UpTo l gs
    → Rising low (push_group gs l op)
unfolding push_group
push_group-Rising low [] l op h r u = (h, tt)
push_group-Rising low ((m, ms) ∷ []) l op h r u = ground arith
push_group-Rising low ((m, ms) ∷ (m', ms') ∷ gs) l op h r u =
    (r.0, push_group-Rising (suc m) ((m', ms') ∷ gs) l op (omega arith) r.1 u.1)

pub push_group-UpTo :
    (gs : List (ℕ × List Bytes)) (l : ℕ) (op : Bytes) → UpTo l gs → UpTo l (push_group gs l op)
unfolding push_group
push_group-UpTo [] l op u = omega arith
push_group-UpTo ((m, ms) ∷ []) l op u = ground arith
push_group-UpTo ((m, ms) ∷ g' ∷ gs) l op u = (u.0, push_group-UpTo (g' ∷ gs) l op u.1)

pub UpTo-le : (a b : ℕ) (gs : List (ℕ × List Bytes)) → a ≤ b → UpTo a gs → UpTo b gs
UpTo-le a b [] h u = tt
UpTo-le a b ((m, ms) ∷ gs) h u = (omega arith, UpTo-le a b gs h u.1)

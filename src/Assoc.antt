-- ===== src/Assoc.antt =====
-- Association lists in recency order, as an LRU cache lays its entries out: the most recent first.
use mathlib.Core.List.{lookup}
use mathlib.Core.Path.{subst}
use rate_throttle.Prelude.{
  ℕ, zero, suc, ◌≤◌, ◌<◌, ◌≡◌, refl, ◌≢◌, ◌⊎◌, inl, inr, ite, if_pos, if_neg, List, [], ◌∷◌, none,
  some, arith, length, take,
}

-- The keys of the entries differ pairwise, and `k` is a key.
module _ {K V : Type 0} where
  abbrev pub HasKey : K → List (K × V) → Type 0
  HasKey k [] = ⊥
  HasKey k ((j, v) ∷ l) = (j ≡ k) ⊎ HasKey k l

  abbrev pub IsDistinct : List (K × V) → Type 0
  IsDistinct [] = Unit
  IsDistinct ((j, v) ∷ l) = (¬ HasKey j l) × IsDistinct l

module _ {K V : Type 0} (dec : Discrete K) where
  -- drops every entry of the key
  unfoldable pub remove : K → List (K × V) → List (K × V)
  remove k [] = []
  remove k ((j, v) ∷ l) = let rest = remove k l in ite (dec j k) rest ((j, v) ∷ rest)

  -- a write through a pointer to the value of the key
  unfoldable pub replace : K → V → List (K × V) → List (K × V)
  replace k w [] = []
  replace k w ((j, v) ∷ l) = ite (dec j k) ((j, w) ∷ l) ((j, v) ∷ replace k w l)

  pub lookup-remove_self : (k : K) (l : List (K × V)) → lookup dec k (remove k l) ≡ none
  unfolding lookup remove
  lookup-remove_self k [] = refl
  lookup-remove_self k ((j, v) ∷ l) = ground (arith, lookup-remove_self k l)

  pub lookup-remove_ne :
      (k q : K) (l : List (K × V)) → q ≢ k → lookup dec q (remove k l) ≡ lookup dec q l
  unfolding lookup remove
  lookup-remove_ne k q [] h = refl
  lookup-remove_ne k q ((j, v) ∷ l) h = ground (arith, lookup-remove_ne k q l)

  pub lookup-replace_self :
      (k : K) (w v : V) (l : List (K × V))
      → lookup dec k l ≡ some v
      → lookup dec k (replace k w l) ≡ some w
  unfolding lookup replace
  lookup-replace_self k w v [] h = ground arith
  lookup-replace_self k w v ((j, u) ∷ l) h = ground (arith, lookup-replace_self k w v l)

  pub lookup-replace_ne :
      (k q : K) (w : V) (l : List (K × V)) → q ≢ k → lookup dec q (replace k w l) ≡ lookup dec q l
  unfolding lookup replace
  lookup-replace_ne k q w [] h = refl
  lookup-replace_ne k q w ((j, u) ∷ l) h = ground (arith, lookup-replace_ne k q w l)

  -- dropping the oldest entries hides keys, and changes no value
  pub lookup-take :
      (q : K) (n : ℕ) (l : List (K × V))
      → (lookup dec q (take n l) ≡ lookup dec q l) ⊎ (lookup dec q (take n l) ≡ none)
  unfolding lookup
  lookup-take q zero l = inr refl
  lookup-take q (suc n) [] = inl refl
  lookup-take q (suc n) ((j, v) ∷ l) = ground (arith, lookup-take q n l)

  pub length-remove-le : (k : K) (l : List (K × V)) → length (remove k l) ≤ length l
  unfolding remove
  length-remove-le k [] = omega arith
  length-remove-le k ((j, v) ∷ l) = ground (arith, length-remove-le k l)

  pub length-remove-lt : (k : K) (l : List (K × V)) → HasKey k l → length (remove k l) < length l
  unfolding remove
  length-remove-lt k [] h = absurd h
  length-remove-lt k ((j, v) ∷ l) h = ground (arith, length-remove-lt k l, length-remove-le k l)

  pub length-replace : (k : K) (w : V) (l : List (K × V)) → length (replace k w l) ≡ length l
  unfolding replace
  length-replace k w [] = refl
  length-replace k w ((j, v) ∷ l) = ground (arith, length-replace k w l)

  pub HasKey-remove : (k q : K) (l : List (K × V)) → HasKey q (remove k l) → HasKey q l × (q ≢ k)
  unfolding remove
  HasKey-remove k q [] h = absurd h
  HasKey-remove k q ((j, v) ∷ l) h = ground (arith, HasKey-remove k q l)

  pub HasKey-replace : (k q : K) (w : V) (l : List (K × V)) → HasKey q (replace k w l) → HasKey q l
  unfolding replace
  HasKey-replace k q w [] h = absurd h
  HasKey-replace k q w ((j, v) ∷ l) h = ground (arith, HasKey-replace k q w l)

  pub HasKey-of_lookup : (k : K) (v : V) (l : List (K × V)) → lookup dec k l ≡ some v → HasKey k l
  unfolding lookup
  HasKey-of_lookup k v [] h = ground arith
  HasKey-of_lookup k v ((j, u) ∷ l) h = ground (arith, HasKey-of_lookup k v l)

  pub remove-IsDistinct : (k : K) (l : List (K × V)) → IsDistinct l → IsDistinct (remove k l)
  unfolding remove
  remove-IsDistinct k [] h = tt
  remove-IsDistinct k ((j, v) ∷ l) h = elim (dec j k) [
    | yes e ↦ rw (if_pos _ e) (remove-IsDistinct k l h.1)
    | no e ↦ rw (if_neg _ e) ((λ m. h.0 (HasKey-remove k j l m).0), remove-IsDistinct k l h.1)
  ]

  pub replace-IsDistinct :
      (k : K) (w : V) (l : List (K × V)) → IsDistinct l → IsDistinct (replace k w l)
  unfolding replace
  replace-IsDistinct k w [] h = tt
  replace-IsDistinct k w ((j, v) ∷ l) h = elim (dec j k) [
    | yes e ↦ rw (if_pos _ e) (h.0, h.1)
    | no e ↦ rw (if_neg _ e) ((λ m. h.0 (HasKey-replace k j w l m)), replace-IsDistinct k w l h.1)
  ]

  pub remove_idem : (k : K) (l : List (K × V)) → remove k (remove k l) ≡ remove k l
  unfolding remove
  remove_idem k [] = refl
  remove_idem k ((j, v) ∷ l) = ground (arith, remove_idem k l)

  pub HasKey-of_HasKey-take : (q : K) (n : ℕ) (l : List (K × V)) → HasKey q (take n l) → HasKey q l
  HasKey-of_HasKey-take q zero l h = absurd h
  HasKey-of_HasKey-take q (suc n) [] h = absurd h
  HasKey-of_HasKey-take q (suc n) ((j, v) ∷ l) h = ground (arith, HasKey-of_HasKey-take q n l)

  pub take-IsDistinct : (n : ℕ) (l : List (K × V)) → IsDistinct l → IsDistinct (take n l)
  take-IsDistinct zero l h = tt
  take-IsDistinct (suc n) [] h = tt
  take-IsDistinct (suc n) ((j, v) ∷ l) h =
      ((λ m. h.0 (HasKey-of_HasKey-take j n l m)), take-IsDistinct n l h.1)

  pub cons_remove-IsDistinct :
      (k : K) (v : V) (l : List (K × V)) → IsDistinct l → IsDistinct ((k, v) ∷ remove k l)
  cons_remove-IsDistinct k v l h = ((λ m. (HasKey-remove k k l m).1 refl), remove-IsDistinct k l h)

pub take_of_length-le : {A : Type 0} (n : ℕ) (xs : List A) → length xs ≤ n → take n xs ≡ xs
take_of_length-le zero [] h = refl
take_of_length-le zero (x ∷ xs) h = absurd (omega arith)
take_of_length-le (suc n) [] h = refl
take_of_length-le (suc n) (x ∷ xs) h = rw (take_of_length-le n xs (omega arith))

pub length-take-le : {A : Type 0} (n : ℕ) (xs : List A) → length (take n xs) ≤ n
length-take-le zero xs = omega arith
length-take-le (suc n) [] = omega arith
length-take-le (suc n) (x ∷ xs) = omega (arith, length-take-le n xs)

-- A pool of keys, and that it holds a key.
abbrev pub InPool : {K : Type 0} → K → List K → Type 0
InPool k [] = ⊥
InPool k (j ∷ ks) = (j ≡ k) ⊎ InPool k ks

module _ {K : Type 0} (dec : Discrete K) where
  delete : K → List K → List K
  delete k [] = []
  delete k (j ∷ ks) = let rest = delete k ks in ite (dec j k) rest (j ∷ rest)

  length-delete-le : (k : K) (ks : List K) → length (delete k ks) ≤ length ks
  unfolding delete
  length-delete-le k [] = omega arith
  length-delete-le k (j ∷ ks) = ground (arith, length-delete-le k ks)

  length-delete-lt : (k : K) (ks : List K) → InPool k ks → length (delete k ks) < length ks
  unfolding delete
  length-delete-lt k [] h = absurd h
  length-delete-lt k (j ∷ ks) h = ground (arith, length-delete-le k ks, length-delete-lt k ks)

  InPool-delete : (k q : K) (ks : List K) → q ≢ k → InPool q ks → InPool q (delete k ks)
  unfolding delete
  InPool-delete k q [] n h = absurd h
  InPool-delete k q (j ∷ ks) n h = ground (arith, InPool-delete k q ks)

  -- Entries with distinct keys from a pool are no more than the pool.
  pub length-le-pool :
      {V : Type 0} (l : List (K × V)) (pool : List K)
      → IsDistinct l
      → ((q : K) → HasKey q l → InPool q pool)
      → length l ≤ length pool
  length-le-pool [] pool d h = omega arith
  length-le-pool ((j, v) ∷ l) pool d h = omega (
    arith,
    length-delete-lt j pool (h j (inl refl)),
    length-le-pool l (delete j pool) d.1
        λ q m. InPool-delete j q pool (λ e. d.0 (subst (λ x. HasKey x l) e m)) (h q (inr m)),
  )

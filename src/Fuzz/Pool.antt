-- ===== src/Fuzz/Pool.antt =====
-- The pool of steady keys of fuzz/fuzz_rate_limiter.cpp.
use rate_throttle.Prelude.{
  ℕ, zero, suc, ◌≤◌, ◌<◌, ◌≡◌, refl, inl, inr, List, [], ◌∷◌, some, arith, length, get_elem?,
  get_or, length-set, get_elem?-set_self, get_elem?-set_ne, ◌∙◌, ℕ_discrete,
}
use rate_throttle.Assoc.{InPool}
use rate_throttle.Text.{Bytes}
use rate_throttle.Fuzz.{steady_key, steady_keys}

-- the steady keys of a cache's capacity
abbrev pub pool_of : ℕ → List Bytes
pool_of zero = []
pool_of (suc i) = steady_key i ∷ pool_of i

pub length-pool_of : (n : ℕ) → length (pool_of n) ≡ n
length-pool_of zero = refl
length-pool_of (suc n) = omega (arith, length-pool_of n)

pub pool_of-InPool : (n i : ℕ) → i < n → InPool (steady_key i) (pool_of n)
pool_of-InPool zero i h = absurd (omega arith)
pool_of-InPool (suc n) i h = elim (ℕ_discrete n i) [
  | yes e ↦ inl (rw e)
  | no d ↦ inr (pool_of-InPool n i (omega arith))
]

length-steady_keys : (n : ℕ) → length (steady_keys n) ≡ 8
length-steady_keys zero = refl
length-steady_keys (suc n) = length-set (steady_keys n) n (steady_key n) ∙ length-steady_keys n

get_elem?-steady_keys :
    (n i : ℕ) → n ≤ 8 → i < n → get_elem? (steady_keys n) i ≡ some (steady_key i)
get_elem?-steady_keys zero i room h = absurd (omega arith)
get_elem?-steady_keys (suc n) i room h = elim (ℕ_discrete n i) [
  | yes e ↦
      rw e
        (get_elem?-set_self (steady_keys i) i (steady_key i) (omega (arith, length-steady_keys i)))
  | no d ↦
      get_elem?-set_ne (steady_keys n) (steady_key n) d
      ∙ get_elem?-steady_keys n i (omega arith) (omega arith)
]

get_or-of_get_elem? :
    (xs : List Bytes) (i : ℕ) (d x : Bytes) → get_elem? xs i ≡ some x → get_or xs i d ≡ x
get_or-of_get_elem? [] i d x e = ground arith
get_or-of_get_elem? (y ∷ xs) zero d x e = ground arith
get_or-of_get_elem? (y ∷ xs) (suc i) d x e = get_or-of_get_elem? xs i d x e

pub get_or-steady_keys : (n i : ℕ) → n ≤ 8 → i < n → get_or (steady_keys n) i [] ≡ steady_key i
get_or-steady_keys n i room h =
    get_or-of_get_elem? (steady_keys n) i [] (steady_key i) (get_elem?-steady_keys n i room h)

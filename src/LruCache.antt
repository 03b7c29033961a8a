-- ===== src/LruCache.antt =====
-- The cache that include/ThrottlePro/RateLimiter.h takes from CachePro, `CachePro::LRUCache<K, V>`.
-- Its code is not part of the repository: it is an interface here, with the documented behaviour of
-- a bounded least-recently-used cache as its laws, and a list that satisfies them beside it.
pub mod ListCache
use mathlib.Core.List.{lookup}
use rate_throttle.Prelude.{
  ℕ, ◌≤◌, ◌<◌, ◌≡◌, refl, ◌≢◌, ◌⊎◌, inl, inr, List, [], ◌∷◌, Option, none, some, arith, length,
  take,
}
use rate_throttle.Assoc.{
  remove, replace, IsDistinct, HasKey, lookup-remove_self, lookup-remove_ne, lookup-replace_self,
  lookup-replace_ne, lookup-take,
}

-- the entries after a lookup: a hit moves the entry to the front
abbrev pub promoted : {K V : Type 0} → Discrete K → K → Option V → List (K × V) → List (K × V)
promoted dec k none l = l
promoted dec k (some v) l = (k, v) ∷ remove dec k l

-- `entries` lists what the cache holds, the most recently used first. `assign` is the write through
-- the live pointer that `get` returns for the key.
pub record LruCache (K V : Type 0) (dec : Discrete K) : Type 1 where
  pub State : Type 0
  pub make : ℕ → Option State
  pub get : K → State → Option V × State
  pub put : K → V → State → State
  pub assign : K → V → State → State
  pub capacity : State → ℕ
  pub entries : State → List (K × V)
  pub make-zero : make 0 ≡ none
  pub make-positive :
      (n : ℕ) → 0 < n → (s : State) × (make n ≡ some s) × (entries s ≡ []) × (capacity s ≡ n)
  pub get-value : (k : K) (s : State) → (get k s).0 ≡ lookup dec k (entries s)
  pub get-entries :
      (k : K) (s : State)
      → entries (get k s).1 ≡ promoted dec k (lookup dec k (entries s)) (entries s)
  pub put-entries :
      (k : K) (v : V) (s : State)
      → entries (put k v s) ≡ take (capacity s) ((k, v) ∷ remove dec k (entries s))
  pub assign-entries :
      (k : K) (v : V) (s : State) → entries (assign k v s) ≡ replace dec k v (entries s)
  pub get-capacity : (k : K) (s : State) → capacity (get k s).1 ≡ capacity s
  pub put-capacity : (k : K) (v : V) (s : State) → capacity (put k v s) ≡ capacity s
  pub assign-capacity : (k : K) (v : V) (s : State) → capacity (assign k v s) ≡ capacity s

-- ===== src/Limiter/Entries.antt =====
-- What one step over the entries does to the window of the requested key, to the other windows, and to
-- the size of the cache.
use mathlib.Core.List.{lookup}
use rate_throttle.Prelude.{
  ℕ, zero, suc, ◌+◌, ◌%◌, ◌^◌, ◌≤◌, ◌<◌, ◌≡◌, refl, ◌≢◌, ◌⊎◌, inl, inr, if_pos, if_neg, List, ◌∷◌,
  none, some, arith, length, take, Option-cases, ap, ◌∙◌,
}
use rate_throttle.Prelude.Int.{ℤ}
use rate_throttle.Assoc.{
  remove, IsDistinct, HasKey, lookup-remove_ne, lookup-take, length-take-le, take_of_length-le,
  length-remove-lt, HasKey-of_lookup, HasKey-remove, take-IsDistinct, cons_remove-IsDistinct,
  HasKey-of_HasKey-take,
}
use rate_throttle.Limiter.{RateLimitWindow, count_up}
use rate_throttle.Limiter.Calls.{next}
use rate_throttle.Limiter.Window.{has_expired-is_over, step}

module _ {K : Type 0} (dec : Discrete K) where
  lookup_cons :
      (k : K) (v : RateLimitWindow) (l : List (K × RateLimitWindow))
      → lookup dec k ((k, v) ∷ l) ≡ some v
  unfolding lookup
  lookup_cons k v l = if_pos (dec k k) refl _ _

  lookup_front :
      (k : K) (room : ℕ) (v : RateLimitWindow) (l : List (K × RateLimitWindow))
      → 0 < room
      → lookup dec k (take room ((k, v) ∷ l)) ≡ some v
  unfolding lookup
  lookup_front k zero v l h = absurd (omega arith)
  lookup_front k (suc n) v l h = if_pos (dec k k) refl _ _

  lookup_front_ne :
      (k q : K) (v : RateLimitWindow) (es : List (K × RateLimitWindow))
      → q ≢ k
      → lookup dec q ((k, v) ∷ remove dec k es) ≡ lookup dec q es
  unfolding lookup
  lookup_front_ne k q v es n = if_neg (dec q k) n _ _ ∙ lookup-remove_ne dec k q es n

  count_up-lt :
      (limit : ℕ) (w : RateLimitWindow)
      → limit < 2 ^ 64
      → w.count < limit
      → count_up w ≡ record w { count = w.count + 1 }
  unfolding count_up
  count_up-lt limit w small h =
      let e : (w.count + 1) % 2 ^ 64 ≡ w.count + 1 = omega arith in
      ap (λ (n : ℕ). record w { count = n }) e

  -- The requested key takes the step of its automaton.
  pub next-step :
      (limit : ℕ) (duration : ℤ) (room : ℕ) (k : K) (now : ℤ) (es : List (K × RateLimitWindow))
      → limit < 2 ^ 64
      → 0 < room
      → ((next dec limit duration room k now es).0 ≡ (step limit duration now (lookup dec k es)).0)
        × (lookup dec k (next dec limit duration room k now es).1
            ≡ (step limit duration now (lookup dec k es)).1)
  unfolding next step
  next-step limit duration room k now es small pos = elim (Option-cases (lookup dec k es)) [
    | inl miss ↦ ground (
      arith,
      lookup_front k room (record { window_start = now; count = 1 }) (remove dec k es) pos,
    )
    | inr (w, hit) ↦ ground (
      arith,
      lookup_front k room (record { window_start = now; count = 1 }) (remove dec k es) pos,
      lookup_cons k (count_up w) (remove dec k es),
      lookup_cons k w (remove dec k es),
      count_up-lt limit w small,
      has_expired-is_over duration now w,
    )
  ]

  -- Another key keeps its window, or is evicted.
  pub next-lookup_ne :
      (limit : ℕ) (duration : ℤ) (room : ℕ) (k : K) (now : ℤ) (es : List (K × RateLimitWindow))
      (q : K)
      → q ≢ k
      → (lookup dec q (next dec limit duration room k now es).1 ≡ lookup dec q es)
        ⊎ (lookup dec q (next dec limit duration room k now es).1 ≡ none)
  unfolding next
  next-lookup_ne limit duration room k now es q n =
      let fresh : RateLimitWindow = record { window_start = now; count = 1 } in
      elim (Option-cases (lookup dec k es)) [
        | inl miss ↦ ground (
          arith,
          lookup-take dec q room ((k, fresh) ∷ remove dec k es),
          lookup_front_ne k q fresh es n,
        )
        | inr (w, hit) ↦ ground (
          arith,
          lookup-take dec q room ((k, fresh) ∷ remove dec k es),
          lookup_front_ne k q fresh es n,
          lookup_front_ne k q w es n,
          lookup_front_ne k q (count_up w) es n,
        )
      ]

  -- Where the entries and the key leave room, no other key is touched.
  pub next-lookup_fits :
      (limit : ℕ) (duration : ℤ) (room : ℕ) (k : K) (now : ℤ) (es : List (K × RateLimitWindow))
      (q : K)
      → length (remove dec k es) < room
      → q ≢ k
      → lookup dec q (next dec limit duration room k now es).1 ≡ lookup dec q es
  unfolding next
  next-lookup_fits limit duration room k now es q fits n =
      let fresh : RateLimitWindow = record { window_start = now; count = 1 } in
      elim (Option-cases (lookup dec k es)) [
        | inl miss ↦ ground (
          arith,
          take_of_length-le room ((k, fresh) ∷ remove dec k es) fits,
          lookup_front_ne k q fresh es n,
        )
        | inr (w, hit) ↦ ground (
          arith,
          take_of_length-le room ((k, fresh) ∷ remove dec k es) fits,
          lookup_front_ne k q fresh es n,
          lookup_front_ne k q w es n,
          lookup_front_ne k q (count_up w) es n,
        )
      ]

  -- The cache never holds more entries than its capacity.
  pub next-length-le :
      (limit : ℕ) (duration : ℤ) (room : ℕ) (k : K) (now : ℤ) (es : List (K × RateLimitWindow))
      → length es ≤ room
      → length (next dec limit duration room k now es).1 ≤ room
  unfolding next
  next-length-le limit duration room k now es h =
      let fresh : RateLimitWindow = record { window_start = now; count = 1 } in
      elim (Option-cases (lookup dec k es)) [
        | inl miss ↦ ground (arith, length-take-le room ((k, fresh) ∷ remove dec k es))
        | inr (w, hit) ↦ ground (
          arith,
          length-take-le room ((k, fresh) ∷ remove dec k es),
          length-remove-lt dec k es (HasKey-of_lookup dec k w es hit),
        )
      ]

  -- Only the requested key can be new.
  pub next-HasKey :
      (limit : ℕ) (duration : ℤ) (room : ℕ) (k : K) (now : ℤ) (es : List (K × RateLimitWindow))
      (q : K)
      → HasKey q (next dec limit duration room k now es).1
      → (k ≡ q) ⊎ HasKey q es
  unfolding next
  next-HasKey limit duration room k now es q h =
      let fresh : RateLimitWindow = record { window_start = now; count = 1 } in
      elim (Option-cases (lookup dec k es)) [
        | inl miss ↦ ground (
          arith,
          HasKey-of_HasKey-take dec q room ((k, fresh) ∷ remove dec k es),
          HasKey-remove dec k q es,
        )
        | inr (w, hit) ↦ ground (
          arith,
          HasKey-of_HasKey-take dec q room ((k, fresh) ∷ remove dec k es),
          HasKey-remove dec k q es,
        )
      ]

  pub next-IsDistinct :
      (limit : ℕ) (duration : ℤ) (room : ℕ) (k : K) (now : ℤ) (es : List (K × RateLimitWindow))
      → IsDistinct es
      → IsDistinct (next dec limit duration room k now es).1
  unfolding next
  next-IsDistinct limit duration room k now es d =
      let fresh : RateLimitWindow = record { window_start = now; count = 1 } in
      elim (Option-cases (lookup dec k es)) [
        | inl miss ↦ ground (
          arith,
          take-IsDistinct dec room ((k, fresh) ∷ remove dec k es)
              (cons_remove-IsDistinct dec k fresh es d),
        )
        | inr (w, hit) ↦ ground (
          arith,
          take-IsDistinct dec room ((k, fresh) ∷ remove dec k es)
              (cons_remove-IsDistinct dec k fresh es d),
          cons_remove-IsDistinct dec k w es d,
        )
      ]

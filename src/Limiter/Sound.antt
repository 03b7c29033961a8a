-- ===== src/Limiter/Sound.antt =====
-- The invariant of a limiter, and what a call does on every branch.
use mathlib.Core.List.{lookup}
use mathlib.Core.Path.{subst}
use rate_throttle.Prelude.{
  [], ℕ, ◌^◌, ◌≤◌, ◌<◌, ◌≡◌, refl, ◌≢◌, ◌⊎◌, inl, inr, none, some, arith, length, ap, ◌∙◌,
}
use rate_throttle.Prelude.Int.{ℤ}
use rate_throttle.Assoc.{IsDistinct}
use rate_throttle.LruCache.{LruCache}
use rate_throttle.Limiter.{RateLimitWindow, RateLimiter, allow, construct}
use rate_throttle.Limiter.Calls.{peek, allow-next}
use rate_throttle.Limiter.Entries.{next-step, next-lookup_ne, next-length-le, next-IsDistinct}
use rate_throttle.Limiter.Window.{step, IsWithin, step-IsWithin}

module _ {K : Type 0} {dec : Discrete K} (c : LruCache K RateLimitWindow dec) where
  -- The limit is a size_t, the cache has room and holds each key once and no more than its capacity,
  -- and every stored window counts at least one request and at most the limit.
  pub record IsSound (r : RateLimiter c) : Type 0 where
    pub small : r.requests_per_window < 2 ^ 64
    pub roomy : 0 < c.capacity r.cache
    pub bounded : length (c.entries r.cache) ≤ c.capacity r.cache
    pub distinct : IsDistinct (c.entries r.cache)
    pub within : (k : K) → IsWithin r.requests_per_window (peek c r k)

  -- On a sound limiter, the answer to a call and the window that it keeps for its key are those of the
  -- key's automaton at the key's window.
  pub allow-step :
      (key : K) (now : ℤ) (r : RateLimiter c)
      → IsSound r
      → ((allow c key now r).0
          ≡ (step r.requests_per_window r.window_duration now (peek c r key)).0)
        × (peek c (allow c key now r).1 key
            ≡ (step r.requests_per_window r.window_duration now (peek c r key)).1)
  allow-step key now r s =
      let (answer, entries, _, _, _) = allow-next c key now r in
      let (answer', kept) =
        next-step dec r.requests_per_window r.window_duration (c.capacity r.cache) key now
          (c.entries r.cache) s.small s.roomy in
      (answer ∙ answer', ap (lookup dec key) entries ∙ kept)

  -- A call leaves the window of any other key as it was, or the other key is no longer tracked.
  pub allow-peek_ne :
      (key : K) (now : ℤ) (r : RateLimiter c) (q : K)
      → q ≢ key
      → (peek c (allow c key now r).1 q ≡ peek c r q) ⊎ (peek c (allow c key now r).1 q ≡ none)
  allow-peek_ne key now r q n = rw ((allow-next c key now r).1) (
      next-lookup_ne dec r.requests_per_window r.window_duration (c.capacity r.cache) key now
        (c.entries r.cache) q n)

  IsWithin-after :
      (key : K) (now : ℤ) (r : RateLimiter c)
      → IsSound r
      → (k : K) → IsWithin r.requests_per_window (peek c (allow c key now r).1 k)
  IsWithin-after key now r s k = elim (dec k key) [
    | yes e ↦
        rw (e, (allow-step key now r s).1)
          (step-IsWithin r.requests_per_window r.window_duration now (peek c r key) (s.within key))
    | no n ↦ elim (allow-peek_ne key now r k n) [
      | inl kept ↦ rw kept (s.within k)
      | inr evicted ↦ rw evicted tt
    ]
  ]

  -- Every call on a sound limiter leaves a sound limiter.
  pub allow-IsSound :
      (key : K) (now : ℤ) (r : RateLimiter c) → IsSound r → IsSound (allow c key now r).1
  allow-IsSound key now r s =
      let (_, entries, room, limit, _) = allow-next c key now r in
      let es = c.entries r.cache in
      record {
        small = rw limit s.small;
        roomy = rw room s.roomy;
        bounded =
            rw (entries, room)
              (next-length-le dec r.requests_per_window r.window_duration (c.capacity r.cache) key
                now es s.bounded);
        distinct = rw entries (
            next-IsDistinct dec r.requests_per_window r.window_duration (c.capacity r.cache) key now
              es s.distinct);
        within = rw limit (IsWithin-after key now r s);
      }

  -- With a limit that fits size_t and a positive capacity the constructor builds a sound limiter that
  -- has the given limit and duration and tracks no key.
  pub construct-IsSound :
      (requests : ℕ) (duration : ℤ) (room : ℕ)
      → requests < 2 ^ 64
      → 0 < room
      → (r : RateLimiter c) × (construct c requests duration room ≡ some r)
        × IsSound r
        × ((k : K) → peek c r k ≡ none)
        × (r.requests_per_window ≡ requests)
        × (r.window_duration ≡ duration)
  unfolding construct lookup
  construct-IsSound requests duration room small pos =
      let (s, made, empty, size) = c.make-positive room pos in
      (
        record { requests_per_window = requests; window_duration = duration; cache = s },
        rw (made, construct),
        record {
          small = small;
          roomy = rw size pos;
          bounded = rw (empty, size) (omega arith);
          distinct = rw empty tt;
          within = λ k. rw empty tt;
        },
        λ k. rw empty,
        refl,
        refl,
      )

  -- A limiter that the constructor built holds nothing, and its cache has the given capacity.
  pub construct-entries :
      (requests : ℕ) (duration : ℤ) (room : ℕ) (r : RateLimiter c)
      → 0 < room
      → construct c requests duration room ≡ some r
      → (c.entries r.cache ≡ []) × (c.capacity r.cache ≡ room)
  unfolding construct
  construct-entries requests duration room r pos h =
      let (s, made, empty, size) = c.make-positive room pos in
      let same : record { requests_per_window = requests; window_duration = duration; cache = s }
          ≡ r =
        ground (arith, made, h) in
      (
        subst (λ x. c.entries x.cache ≡ []) same empty,
        subst (λ x. c.capacity x.cache ≡ room) same size,
      )

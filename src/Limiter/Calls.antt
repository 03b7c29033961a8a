-- ===== src/Limiter/Calls.antt =====
-- One call of `allow` against the automaton of its key and against the cache: what it answers, what it
-- stores, and what it leaves alone.
use mathlib.Core.List.{lookup}
use rate_throttle.Prelude.{
  ℕ, ◌≡◌, refl, inl, inr, Bool, true, false, List, ◌∷◌, Option, none, some, arith, take, ltb, ◌==◌,
  if◌then◌else◌, if_pos, Option-cases,
}
use rate_throttle.Prelude.Int.{ℤ}
use rate_throttle.Assoc.{remove, replace, remove_idem}
use rate_throttle.LruCache.{LruCache, promoted}
use rate_throttle.Limiter.{
  RateLimitWindow, RateLimiter, has_expired, count_up, open_window, decide, allow,
}

module _ {K : Type 0} (dec : Discrete K) where
  -- What a call answers and what the cache then holds, over the entries alone.
  unfoldable pub next :
      ℕ → ℤ → ℕ → K → ℤ → List (K × RateLimitWindow) → Bool × List (K × RateLimitWindow)
  next limit duration room key now es =
      if limit == 0 then (false, es) else (elim (lookup dec key es) [
        | none ↦
            (true, take room ((key, record { window_start = now; count = 1 }) ∷ remove dec key es))
        | some w ↦
            if has_expired duration now w
            then (
              true,
              take room ((key, record { window_start = now; count = 1 }) ∷ remove dec key es),
            )
            else if ltb w.count limit
            then (true, (key, count_up w) ∷ remove dec key es)
            else (false, (key, w) ∷ remove dec key es)
      ])

module _ {K : Type 0} {dec : Discrete K} (c : LruCache K RateLimitWindow dec) where
  -- the window that the limiter holds for a key
  abbrev pub peek : RateLimiter c → K → Option RateLimitWindow
  peek r k = lookup dec k (c.entries r.cache)

  remove-promoted :
      (k : K) (o : Option RateLimitWindow) (l : List (K × RateLimitWindow))
      → remove dec k (promoted dec k o l) ≡ remove dec k l
  unfolding remove
  remove-promoted k none l = refl
  remove-promoted k (some v) l = ground (arith, remove_idem dec k l)

  put_after_get :
      (key : K) (v : RateLimitWindow) (s : c.State)
      → c.entries (c.put key v (c.get key s).1)
        ≡ take (c.capacity s) ((key, v) ∷ remove dec key (c.entries s))
  put_after_get key v s = rw (c.put-entries, c.get-capacity, c.get-entries, remove-promoted)

  assign_after_get :
      (key : K) (v w : RateLimitWindow) (s : c.State)
      → lookup dec key (c.entries s) ≡ some w
      → c.entries (c.assign key v (c.get key s).1) ≡ (key, v) ∷ remove dec key (c.entries s)
  unfolding replace
  assign_after_get key v w s hit =
      rw (c.assign-entries, c.get-entries, hit) (if_pos (dec key key) refl _ _)

  -- A call of `allow` is one step over the entries; it changes neither the limit nor the duration nor
  -- the capacity.
  pub allow-next :
      (key : K) (now : ℤ) (r : RateLimiter c)
      → let n =
          next dec r.requests_per_window r.window_duration
            (c.capacity r.cache)
            key
            now
            (c.entries r.cache) in
        ((allow c key now r).0 ≡ n.0)
        × (c.entries (allow c key now r).1.cache ≡ n.1)
        × (c.capacity (allow c key now r).1.cache ≡ c.capacity r.cache)
        × ((allow c key now r).1.requests_per_window ≡ r.requests_per_window)
        × ((allow c key now r).1.window_duration ≡ r.window_duration)
  unfolding allow decide open_window next
  allow-next key now r =
      let fresh : RateLimitWindow = record { window_start = now; count = 1 } in
      let s = (c.get key r.cache).1 in
      elim (Option-cases (lookup dec key (c.entries r.cache))) [
        | inl miss ↦ ground (
          arith,
          c.get-value key r.cache,
          c.get-capacity key r.cache,
          put_after_get key fresh r.cache,
          c.put-capacity key fresh s,
        )
        | inr (w, hit) ↦ ground (
          arith,
          c.get-value key r.cache,
          c.get-capacity key r.cache,
          c.get-entries key r.cache,
          put_after_get key fresh r.cache,
          c.put-capacity key fresh s,
          assign_after_get key (count_up w) w r.cache hit,
          c.assign-capacity key (count_up w) s,
        )
      ]

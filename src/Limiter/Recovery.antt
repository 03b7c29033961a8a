-- ===== src/Limiter/Recovery.antt =====
-- Keys that were refused, and their later requests.
use rate_throttle.Prelude.{
  ℕ, ◌<◌, ◌≡◌, refl, sym, ◌≢◌, ◌⊎◌, inl, inr, true, false, List, [], ◌∷◌, Option, none, some, ◌∙◌,
  arith, Option-cases,
}
use rate_throttle.Prelude.Int.{ℤ}
use rate_throttle.LruCache.{LruCache}
use rate_throttle.Limiter.{RateLimitWindow, RateLimiter, allow}
use rate_throttle.Limiter.Calls.{peek, allow-next}
use rate_throttle.Limiter.Sound.{IsSound, allow-step, allow-peek_ne, allow-IsSound}
use rate_throttle.Limiter.Trace.{run}
use rate_throttle.Limiter.Window.{step, is_over}

-- None of the requests is of the key.
abbrev pub NoneOf : {K : Type 0} → K → List (K × ℤ) → Type 0
NoneOf k [] = Unit
NoneOf k ((j, t) ∷ tr) = (k ≢ j) × NoneOf k tr

-- the window of a key that is tracked with `w`, or no more
abbrev StillOr : Option RateLimitWindow → Option RateLimitWindow → Type 0
StillOr w w' = (w' ≡ w) ⊎ (w' ≡ none)

module _ {K : Type 0} {dec : Discrete K} (c : LruCache K RateLimitWindow dec) where
  record After (r r' : RateLimiter c) (key : K) : Type 0 where
    sound : IsSound c r'
    still : StillOr (peek c r key) (peek c r' key)
    limit : r'.requests_per_window ≡ r.requests_per_window
    span : r'.window_duration ≡ r.window_duration

  run-After :
      (tr : List (K × ℤ)) (r : RateLimiter c) (key : K)
      → IsSound c r
      → NoneOf key tr
      → After r (run c tr r).1 key
  unfolding run
  run-After [] r key s none_of = record { sound = s; still = inl refl; limit = refl; span = refl }
  run-After ((j, t) ∷ tr) r key s none_of =
      let (_, _, _, limit, span) = allow-next c j t r in
      let rest = run-After tr (allow c j t r).1 key (allow-IsSound c j t r s) none_of.1 in
      record {
        sound = rest.sound;
        still = elim (rest.still) [
          | inl kept ↦ elim (allow-peek_ne c j t r key none_of.0) [
            | inl kept' ↦ inl (kept ∙ kept')
            | inr gone ↦ inr (kept ∙ gone)
          ]
          | inr gone ↦ inr gone
        ];
        limit = rest.limit ∙ limit;
        span = rest.span ∙ span;
      }

  -- A key that is not tracked, or whose window is over, is let through.
  allowed_if_over :
      (key : K) (t : ℤ) (r : RateLimiter c)
      → IsSound c r
      → 0 < r.requests_per_window
      → ((w : RateLimitWindow) → peek c r key ≡ some w → is_over r.window_duration t w ≡ true)
      → (allow c key t r).0 ≡ true
  unfolding step
  allowed_if_over key t r s some_limit over = elim (Option-cases (peek c r key)) [
    | inl miss ↦ ground (arith, (allow-step c key t r s).0, miss)
    | inr (w, hit) ↦ ground (arith, (allow-step c key t r s).0, over w hit, hit)
  ]

  step_refused :
      (limit : ℕ) (duration now : ℤ) (o : Option RateLimitWindow)
      → 0 < limit
      → (step limit duration now o).0 ≡ false
      → (w : RateLimitWindow) × (o ≡ some w) × ((step limit duration now o).1 ≡ some w)
  unfolding step
  step_refused limit duration now none pos h = absurd (ground (arith, h))
  step_refused limit duration now (some w) pos h = (w, refl, ground (arith, h))

  -- If the limit is positive and a call on a sound limiter is refused, then the key has a window, and
  -- the next request of the key that comes when this window is over is let through, after any requests
  -- of other keys.
  pub refused_then_allowed :
      (key : K) (now : ℤ) (r : RateLimiter c)
      → IsSound c r
      → 0 < r.requests_per_window
      → (allow c key now r).0 ≡ false
      → (w : RateLimitWindow) × (peek c r key ≡ some w)
        × ((tr : List (K × ℤ)) (t : ℤ)
            → NoneOf key tr
            → is_over r.window_duration t w ≡ true
            → (allow c key t (run c tr (allow c key now r).1).1).0 ≡ true)
  refused_then_allowed key now r s pos h =
      let r' = (allow c key now r).1 in
      let (_, _, _, limit, span) = allow-next c key now r in
      let (answer, kept) = allow-step c key now r s in
      let (w, hit, same) =
        step_refused r.requests_per_window r.window_duration now (peek c r key) pos
          (sym answer ∙ h) in
      (
        w,
        hit,
        λ tr t none_of over.
            let a = run-After tr r' key (allow-IsSound c key now r s) none_of in
            allowed_if_over key t (run c tr r').1 a.sound (rw (a.limit, limit) pos) λ w' hit'.
              elim (a.still) [
                | inl still ↦ cc (hit', still, kept, same, over, a.span, span)
                | inr gone ↦ absurd (ground (arith, gone, hit'))
              ],
      )

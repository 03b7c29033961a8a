-- ===== src/Limiter/Guarantees.antt =====
-- What the limiter promises over whole sequences of calls, and what the mutex adds under threads.
use rate_throttle.Prelude.{◌*◌, ◌-◌, ◌≤◌, ◌≡◌, refl, false, List, [], ◌∷◌, none, arith, length, map}
use Prim.Native.Nat.{min}
use rate_throttle.Prelude.Int.{ℤ}
use rate_throttle.LruCache.{LruCache}
use rate_throttle.Limiter.{RateLimitWindow, RateLimiter, allow}
use rate_throttle.Limiter.Calls.{peek}
use rate_throttle.Limiter.Trace.{run, own, times, AllInPool, Fits, own-run}
use rate_throttle.Limiter.Window.{allowed, Spans, AllActive, allowed_span, allowed_fresh}

module _ {K : Type 0} {dec : Discrete K} (c : LruCache K RateLimitWindow dec) where
  -- With a limit of zero every request of every sequence is refused, and the limiter is left as it
  -- was.
  pub run-zero :
      (tr : List (K × ℤ)) (r : RateLimiter c)
      → r.requests_per_window ≡ 0
      → run c tr r ≡ (map (λ _. false) tr, r)
  unfolding run allow
  run-zero [] r z = refl
  run-zero ((k, t) ∷ tr) r z = ground (arith, run-zero tr r z)

  module _ (pool : List K) (tr : List (K × ℤ)) (r : RateLimiter c) (k : K) where
    -- If the limiter is sound, the keys of the requests and those that it tracks come from a pool,
    -- and the cache has room for the pool, then of the requests of a key whose times lie within one
    -- window duration, in any order, at most twice the limit less one are let through, whatever the
    -- other keys do.
    pub own-span :
        (from : ℤ)
        → AllInPool pool tr
        → Fits c pool r
        → Spans from r.window_duration (times dec k tr)
        → allowed (own dec k tr (run c tr r).0) ≤ 2 * r.requests_per_window - 1
    own-span from a f s = rw (own-run c pool tr r k a f) (
        allowed_span r.requests_per_window r.window_duration from (times dec k tr) (peek c r k)
          (f.sound.within k) s)

    -- If the limiter is sound, the keys of the requests and those that it tracks come from a pool,
    -- and the cache has room for the pool, then of the requests of an untracked key that all come
    -- before the window of the first one is over as many are let through as the limit allows: the
    -- limit or all of them, whichever is less.
    pub own-fresh :
        (t : ℤ) (ts : List ℤ)
        → AllInPool pool tr
        → Fits c pool r
        → peek c r k ≡ none
        → times dec k tr ≡ t ∷ ts
        → AllActive r.window_duration (record { window_start = t; count = 1 }) ts
        → allowed (own dec k tr (run c tr r).0) ≡ min r.requests_per_window (length (t ∷ ts))
    own-fresh t ts a f untracked requests active =
        rw (own-run c pool tr r k a f, requests, untracked)
          (allowed_fresh r.requests_per_window r.window_duration t ts active)

-- ===== src/Limiter/Threads/Serial.antt =====
-- What the mutex of `allow` guarantees under every schedule.
use mathlib.Core.Path.{subst}
use rate_throttle.Prelude.{ℕ, ◌≡◌, sym, ◌≢◌, List, none, ℕ_discrete, ◌∙◌}
use rate_throttle.LruCache.{LruCache}
use rate_throttle.Limiter.{RateLimitWindow, RateLimiter}
use rate_throttle.Limiter.Trace.{run, own, times, AllInPool, Fits, own-run}
use rate_throttle.Limiter.Window.{answers}
use rate_throttle.Limiter.Calls.{peek}
use rate_throttle.Limiter.Threads.{idle, Threads, Reach, at_rest, Held, holder_of, Reach-Inv}

module _ {K : Type 0} {dec : Discrete K} (c : LruCache K RateLimitWindow dec) where
  -- In every state that a schedule reaches from a limiter at rest, two threads that are both inside
  -- a call of `allow`, behind the mutex, are the same thread.
  pub mutual_exclusion :
      (start : RateLimiter c) (s : Threads c) (t u : ℕ)
      → Reach c (at_rest c start) s
      → s.phase t ≢ idle
      → s.phase u ≢ idle
      → t ≡ u
  mutual_exclusion start s t u reached busy_t busy_u =
      let i = Reach-Inv c start reached in
      let (e, _, others) = holder_of c i.found s.holder s.phase s.limiter t i.held busy_t in
      elim (ℕ_discrete u t) [ yes same ↦ sym same | no other ↦ absurd (busy_u (others u other)) ]

  -- In every state that a schedule reaches from a limiter at rest, the answers of the finished calls
  -- are those of a sequential run of these calls, in the order in which they finished, from that
  -- limiter.
  pub serializable :
      (start : RateLimiter c) (s : Threads c)
      → Reach c (at_rest c start) s
      → s.results ≡ (run c s.calls start).0
  serializable start s reached = cc ((Reach-Inv c start reached).serial)

  -- In every state that a schedule reaches from a limiter at rest, a limiter that no thread holds is
  -- the one in which the sequential run of the finished calls ends.
  pub serializable_state :
      (start : RateLimiter c) (s : Threads c)
      → Reach c (at_rest c start) s
      → s.holder ≡ none
      → s.limiter ≡ (run c s.calls start).1
  serializable_state start s reached free =
      let i = Reach-Inv c start reached in
      (subst (λ h. Held c i.found h s.phase s.limiter) free i.held).0 ∙ cc (i.serial)

  -- If the limiter at the start is sound, the keys of the finished calls and those that it tracks
  -- come from a pool, and the cache has room for the pool, then under every schedule the finished
  -- calls of a key are answered as the key's automaton answers them alone, in the order of the log.
  pub own-threads :
      (pool : List K) (start : RateLimiter c) (s : Threads c) (k : K)
      → Reach c (at_rest c start) s
      → AllInPool pool s.calls
      → Fits c pool start
      → own dec k s.calls s.results
        ≡ answers start.requests_per_window start.window_duration
            (times dec k s.calls)
            (peek c start k)
  own-threads pool start s k reached a f =
      rw (serializable start s reached) (own-run c pool s.calls start k a f)

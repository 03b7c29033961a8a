-- ===== src/Limiter/Tests/Liveness.antt =====
-- The theorems on the progress of keys and threads at concrete inputs.
use rate_throttle.Prelude.{ℕ, ◌<◌, ◌≡◌, refl, true, false, List, some, arith}
use rate_throttle.Prelude.Int.{ℤ, pos}
use rate_throttle.Limiter.{RateLimitWindow, RateLimiter, allow}
use rate_throttle.Limiter.Calls.{peek}
use rate_throttle.Limiter.Sound.{IsSound, allow-IsSound}
use rate_throttle.Limiter.Window.{is_over}
use rate_throttle.Limiter.Trace.{run}
use rate_throttle.Limiter.Recovery.{NoneOf, refused_then_allowed}
use rate_throttle.Limiter.Threads.{Threads, Step}
use rate_throttle.Limiter.Threads.Liveness.{steps_left, holder_advances}
use rate_throttle.Limiter.Tests.{
  program, cache, alice, limiter, used, used-IsSound, second, second-Reach,
}

-- behind two requests of alice
abbrev full : RateLimiter cache
full = (allow cache alice (pos 6) used).1

full-IsSound : IsSound cache full
full-IsSound = allow-IsSound cache alice (pos 6) used used-IsSound

refused : (allow cache alice (pos 7) full).0 ≡ false
unfolding program
refused = refl

refused_then_allowed_example :
    (w : RateLimitWindow) × (peek cache full alice ≡ some w)
    × ((tr : List (List ℕ × ℤ)) (t : ℤ)
        → NoneOf alice tr
        → is_over full.window_duration t w ≡ true
        → (allow cache alice t (run cache tr (allow cache alice (pos 7) full).1).1).0 ≡ true)
unfolding program
refused_then_allowed_example =
    refused_then_allowed cache alice (pos 7) full full-IsSound (omega arith) refused

holder_advances_example :
    ((s' : Threads cache) × Step cache second s')
    × ((s' : Threads cache)
        → Step cache second s'
        → steps_left (s'.phase 1) < steps_left (second.phase 1))
holder_advances_example = holder_advances cache limiter second 1 second-Reach refl

-- ===== src/Limiter.antt =====
-- src/ThrottlePro/RateLimiter.cpp and include/ThrottlePro/RateLimiter.h: the fixed-window rate
-- limiter. Time points are signed counts of nanoseconds and the window duration is a signed count
-- of milliseconds, as in std::chrono; the cache is a parameter. The modules below this one hold the
-- theorems.
pub mod Window
pub mod Calls
pub mod Entries
pub mod Sound
pub mod Trace
pub mod Boundary
pub mod Guarantees
pub mod Recovery
pub mod Threads
mod Tests
use rate_throttle.Prelude.{
  ℕ, ◌+◌, ◌%◌, ◌^◌, Bool, true, false, ◌||◌, Option, none, some, ltb, leb, ◌==◌, if◌then◌else◌,
}
use rate_throttle.Prelude.Int.{ℤ, pos, ◌*ℤ◌, ◌-ℤ◌, leb_ℤ}
use rate_throttle.LruCache.{LruCache}

pub record RateLimitWindow : Type 0 where
  pub window_start : ℤ
  pub count : ℕ

-- the milliseconds of a duration, in the nanoseconds that the comparison is made in
unfoldable pub nanoseconds : ℤ → ℤ
nanoseconds duration = pos 1_000_000 *ℤ duration

-- `(now - existing->windowStart) >= windowDuration_`
unfoldable pub has_expired : ℤ → ℤ → RateLimitWindow → Bool
has_expired duration now w = leb_ℤ (nanoseconds duration) (now -ℤ w.window_start)

-- `++existing->count` on a size_t
unfoldable pub count_up : RateLimitWindow → RateLimitWindow
count_up w = record w { count = (w.count + 1) % 2 ^ 64 }

module _ {K : Type 0} {dec : Discrete K} (c : LruCache K RateLimitWindow dec) where
  pub record RateLimiter : Type 0 where
    pub requests_per_window : ℕ
    pub window_duration : ℤ
    pub cache : c.State

  -- The constructor. `none` is the exception that the cache throws at capacity zero.
  unfoldable pub construct : ℕ → ℤ → ℕ → Option RateLimiter
  construct requests duration cap = elim (c.make cap) [
    | none ↦ none
    | some s ↦
        some (record { requests_per_window = requests; window_duration = duration; cache = s })
  ]

  -- `cache_.put(key, RateLimitWindow{now, 1})`
  unfoldable pub open_window : K → ℤ → RateLimiter → Bool × RateLimiter
  open_window key now r =
      (true, record r { cache = c.put key (record { window_start = now; count = 1 }) r.cache })

  -- the branches of `allow` behind the lookup
  unfoldable pub decide : K → ℤ → Option RateLimitWindow → RateLimiter → Bool × RateLimiter
  unfolding open_window
  decide key now none r = open_window key now r
  decide key now (some w) r =
      if has_expired r.window_duration now w
      then open_window key now r
      else if ltb w.count r.requests_per_window
      then (true, record r { cache = c.assign key (count_up w) r.cache })
      else (false, r)

  unfoldable pub allow : K → ℤ → RateLimiter → Bool × RateLimiter
  allow key now r =
      if r.requests_per_window == 0
      then (false, r)
      else (let (existing, cache) = c.get key r.cache in
          decide key now existing (record r { cache = cache }))

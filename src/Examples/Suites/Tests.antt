-- ===== src/Examples/Suites/Tests.antt =====
-- The theorems on the example suites at a concrete cache.
use rate_throttle.Prelude.{◌≡◌, some}
use rate_throttle.Prelude.Int.{pos}
use rate_throttle.Text.{Bytes, bytes_dec}
use rate_throttle.LruCache.{LruCache}
use rate_throttle.LruCache.ListCache.{list_cache}
use rate_throttle.Limiter.{RateLimitWindow}
use rate_throttle.Examples.Suites.Advanced.{boundary_burst_behavior}
use rate_throttle.Examples.Suites.Integration.{cache_capacity_tuning}
use rate_throttle.Examples.Suites.Answers.{burst_lines, boundary_burst_behavior-burst}
use rate_throttle.Examples.Suites.Evictions.{tuning_lines, cache_capacity_tuning-shown}

abbrev cache : LruCache Bytes RateLimitWindow bytes_dec
cache = list_cache {V = RateLimitWindow} bytes_dec

boundary_burst_behavior-burst_example : boundary_burst_behavior cache (pos 5) ≡ some burst_lines
boundary_burst_behavior-burst_example = boundary_burst_behavior-burst cache (pos 5)

cache_capacity_tuning-shown_example : cache_capacity_tuning cache (pos 5) ≡ some tuning_lines
cache_capacity_tuning-shown_example = cache_capacity_tuning-shown cache (pos 5)

-- ===== src/Fuzz/Tests.antt =====
-- Runs of the harness of fuzz/fuzz_rate_limiter.cpp, and its theorem at a concrete input.
use mathlib.Core.List.{lookup}
use rate_throttle.Prelude.{◌≡◌, refl, [], ◌∷◌, ℕ_discrete}
use rate_throttle.Prelude.Int.{pos, ◌*ℤ◌, ◌-ℤ◌, ◌+ℤ◌}
use rate_throttle.Assoc.{remove, replace}
use rate_throttle.Text.{Bytes, bytes_dec}
use rate_throttle.Text.Decimal.{to_string}
use rate_throttle.LruCache.{LruCache}
use rate_throttle.LruCache.ListCache.{list_cache}
use rate_throttle.Limiter.{
  RateLimitWindow, nanoseconds, has_expired, count_up, construct, open_window, decide, allow,
}
use rate_throttle.Fuzz.{returned, advance, fuzz_one_input}
use rate_throttle.Fuzz.Agree.{fuzz_one_input-returned}

abbrev cache : LruCache Bytes RateLimitWindow bytes_dec
cache = list_cache {V = RateLimitWindow} bytes_dec

-- capacity 2, a limit of 1 and a window of 10 ms; then an overflow key, a boundary, one tick before the
-- next one, and two calls at the same instant
abbrev corpus : Bytes
corpus = 1 ∷ 1 ∷ 9 ∷ 16 ∷ 5 ∷ 2 ∷ 3 ∷ 7 ∷ []

corpus_run : fuzz_one_input cache corpus (pos 0) ≡ returned 0
unfolding fuzz_one_input lookup remove replace nanoseconds has_expired count_up construct
    open_window decide allow bytes_dec ◌*ℤ◌ ◌-ℤ◌ ◌+ℤ◌ ℕ_discrete to_string
corpus_run = refl

before_boundary : advance (pos 10) 2 (pos 0) ≡ pos 9_000_000
unfolding advance nanoseconds ◌*ℤ◌ ◌-ℤ◌ ◌+ℤ◌
before_boundary = refl

fuzz_one_input-returned_example : fuzz_one_input cache corpus (pos 0) ≡ returned 0
fuzz_one_input-returned_example = fuzz_one_input-returned cache corpus (pos 0)

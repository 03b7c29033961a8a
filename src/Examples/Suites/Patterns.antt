-- ===== src/Examples/Suites/Patterns.antt =====
-- examples/suite/patterns: per_client_throttling.cpp and deterministic_testing.cpp.
use rate_throttle.Prelude.{ℕ, zero, suc, ◌*◌, List, [], ◌∷◌, ◌++◌, Option, some}
use rate_throttle.Prelude.Int.{ℤ, pos}
use rate_throttle.Text.{Bytes, codes, bytes_dec}
use rate_throttle.Text.Decimal.{to_string}
use rate_throttle.Regression.Report.{Piece, newline}
use rate_throttle.LruCache.{LruCache}
use rate_throttle.Limiter.{RateLimitWindow, RateLimiter, construct, allow}
use rate_throttle.Examples.Suites.{◌>>=◌, set_title, shown, choice, later_by, client_a, client_b}

abbrev pub first_ip : Bytes
first_ip = codes "192.168.1.10"

abbrev pub second_ip : Bytes
second_ip = codes "10.0.0.5"

abbrev pub third_ip : Bytes
third_ip = codes "203.0.113.7"

module _ (c : LruCache Bytes RateLimitWindow bytes_dec) (now : ℤ) where
  -- the loop over the incoming requests
  unfoldable pub stream_lines : List Bytes → RateLimiter c → List Piece
  stream_lines [] limiter = []
  stream_lines (client_ip ∷ incoming) limiter =
      let (allowed, limiter') = allow c client_ip now limiter in
      choice allowed (client_ip ++ codes ": allowed") (client_ip ++ codes ": denied")
      ++ stream_lines incoming limiter'

  unfoldable pub per_client_throttling : Option (List Piece)
  unfolding stream_lines
  per_client_throttling = do
    limiter ← construct c 2 (pos 1000) 100
    let call1 = allow c first_ip now limiter
    let call2 = allow c first_ip now call1.1
    let call3 = allow c first_ip now call2.1
    let call4 = allow c second_ip now call3.1
    let call5 = allow c second_ip now call4.1
    some (
        set_title (codes "Keying by client IP")
        ++ shown (codes "192.168.1.10 request #1: ") call1.0 []
        ++ shown (codes "192.168.1.10 request #2: ") call2.0 []
        ++ shown (codes "192.168.1.10 request #3: ") call3.0 []
        ++ newline ∷ []
        ++ set_title (codes "A different client is unaffected")
        ++ shown (codes "10.0.0.5 request #1: ") call4.0 []
        ++ shown (codes "10.0.0.5 request #2: ") call5.0 []
        ++ set_title (codes "Handling a stream of requests")
        ++ stream_lines (first_ip ∷ second_ip ∷ first_ip ∷ third_ip ∷ []) call5.1)

  -- the loop over the windows that are left, from `window` on
  unfoldable pub window_lines : ℕ → ℕ → RateLimiter c → List Piece
  window_lines window zero limiter = []
  window_lines window (suc left) limiter =
      let (allowed, limiter') = allow c client_b (later_by (window * 1000) now) limiter in
      choice allowed (codes "window " ++ to_string window ++ codes ": allowed")
        (codes "window " ++ to_string window ++ codes ": denied")
      ++ window_lines (suc window) left limiter'

  unfoldable pub deterministic_testing : Option (List Piece)
  unfolding window_lines
  deterministic_testing = do
    limiter ← construct c 1 (pos 1000) 100
    let call1 = allow c client_a now limiter
    let call2 = allow c client_a now call1.1
    let call3 = allow c client_a (later_by 1000 now) call2.1
    some (
        set_title (codes "Why the time is overridable")
        ++ shown (codes "request at t=0ms   : ") call1.0 []
        ++ shown (codes "request at t=0ms   : ") call2.0 (codes " (denied)")
        ++ newline ∷ []
        ++ set_title (codes "Simulating window expiry")
        ++ shown (codes "request at t=1000ms: ") call3.0 (codes " (fresh window)")
        ++ newline ∷ []
        ++ set_title (codes "Simulating several windows in sequence")
        ++ window_lines 0 4 call3.1)

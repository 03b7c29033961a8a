-- ===== src/Examples/Suites/Misuse.antt =====
-- examples/suite/misuse: assuming_sliding_window.cpp, ignoring_return_value.cpp and
-- zero_limit_surprise.cpp.
use rate_throttle.Prelude.{ℕ, zero, suc, ◌-◌, ◌^◌, List, [], ◌∷◌, ◌++◌, Option, some, ◌&&◌}
use rate_throttle.Prelude.Int.{ℤ, pos}
use rate_throttle.Text.{Bytes, codes, bytes_dec}
use rate_throttle.Text.Decimal.{to_string}
use rate_throttle.Regression.Report.{Piece, text, newline}
use rate_throttle.LruCache.{LruCache}
use rate_throttle.Limiter.{RateLimitWindow, RateLimiter, construct, allow}
use rate_throttle.Examples.Suites.{◌>>=◌, set_title, shown, choice, later_by, client_a, client_b}

module _ (c : LruCache Bytes RateLimitWindow bytes_dec) (now : ℤ) where
  unfoldable pub assuming_sliding_window : Option (List Piece)
  assuming_sliding_window = do
    limiter ← construct c 3 (pos 1000) 100
    let window_end = later_by 999 now
    let next_window_start = later_by 1000 window_end
    let call1 = allow c client_a window_end limiter
    let call2 = allow c client_a window_end call1.1
    let call3 = allow c client_a window_end call2.1
    let r1 = allow c client_a next_window_start call3.1
    let r2 = allow c client_a next_window_start r1.1
    let r3 = allow c client_a next_window_start r2.1
    some (
        set_title (codes "The assumption: a rolling window guarantee")
        ++ text (codes "expected (sliding window): never more than 3 requests in any 1000ms span")
          ∷ newline
          ∷ newline
          ∷ []
        ++ set_title (codes "What fixed windows actually allow")
        ++ shown (codes "6 requests allowed within ~1ms of wall-clock time: ")
            (r1.0 && r2.0 && r3.0) []
        ++ newline ∷ []
        ++ set_title (codes "This is a known, documented tradeoff")
        ++ text
            (codes "fixed-window is v1; sliding window / token bucket are candidate v2 algorithms")
          ∷ newline
          ∷ [])

  -- the loop of the correct pattern, from request `i` on
  unfoldable pub request_lines : ℕ → ℕ → RateLimiter c → List Piece
  request_lines i zero limiter = []
  request_lines i (suc left) limiter =
      let (allowed, limiter') = allow c client_b now limiter in
      choice allowed (codes "request " ++ to_string i ++ codes ": processed")
        (codes "request " ++ to_string i ++ codes ": rejected")
      ++ request_lines (suc i) left limiter'

  -- the three answers that are ignored are not printed
  unfoldable pub ignoring_return_value : Option (List Piece)
  unfolding request_lines
  ignoring_return_value = do
    limiter ← construct c 2 (pos 1000) 100
    let call1 = allow c client_a now limiter
    let call2 = allow c client_a now call1.1
    let call3 = allow c client_a now call2.1
    correct ← construct c 2 (pos 1000) 100
    some (
        set_title (codes "The mistake: discarding the result")
        ++ text (codes "3 requests recorded, but the 3rd was over-limit and nothing rejected it")
          ∷ newline
          ∷ newline
          ∷ []
        ++ set_title (codes "The consequence")
        ++ text (codes "the limiter's internal state is still correct (denied #3 internally),")
          ∷ newline
          ∷ text (codes "but the caller never found out, so the request was processed anyway")
          ∷ newline
          ∷ newline
          ∷ []
        ++ set_title (codes "The correct pattern")
        ++ request_lines 0 3 correct)

  unfoldable pub zero_limit_surprise : Option (List Piece)
  zero_limit_surprise = do
    mistaken ← construct c 0 (pos 1000) 100
    let call1 = allow c client_a now mistaken
    effectively_unlimited ← construct c (2 ^ 64 - 1) (pos 1000) 100
    let call2 = allow c client_a now effectively_unlimited
    some (
        set_title (codes "The mistake: 0 does not mean unlimited")
        ++ shown (codes "allow(\"client-a\"): ") call1.0
            (codes " -- every request denied, not unlimited")
        ++ newline ∷ []
        ++ set_title (codes "There is no unlimited sentinel")
        ++ text (codes "correct approach: skip calling allow() entirely for that route,")
          ∷ newline
          ∷ text (codes "or use a limit high enough that it's effectively never reached.")
          ∷ newline
          ∷ newline
          ∷ []
        ++ set_title (codes "The practical workaround")
        ++ shown (codes "allow(\"client-a\"): ") call2.0 [])

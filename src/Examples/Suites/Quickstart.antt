-- ===== src/Examples/Suites/Quickstart.antt =====
-- examples/suite/quickstart: basic_usage.cpp and denial_handling.cpp.
use rate_throttle.Prelude.{List, [], ◌∷◌, ◌++◌, Option, some, true, false}
use rate_throttle.Prelude.Int.{ℤ, pos}
use rate_throttle.Text.{Bytes, codes, bytes_dec}
use rate_throttle.Regression.Report.{Piece, text, newline}
use rate_throttle.LruCache.{LruCache}
use rate_throttle.Limiter.{RateLimitWindow, construct, allow}
use rate_throttle.Examples.Suites.{◌>>=◌, set_title, shown, choice, later_by, client_a}

module _ (c : LruCache Bytes RateLimitWindow bytes_dec) (now : ℤ) where
  unfoldable pub basic_usage : Option (List Piece)
  basic_usage = do
    limiter ← construct c 3 (pos 1000) 100
    let call1 = allow c client_a now limiter
    let call2 = allow c client_a now call1.1
    let call3 = allow c client_a now call2.1
    let call4 = allow c client_a now call3.1
    let call5 = allow c client_a (later_by 1000 now) call4.1
    some (
        set_title (codes "Construction")
        ++ text (codes "limiter ready: 3 requests per 1000ms window") ∷ newline ∷ newline ∷ []
        ++ set_title (codes "Allowing requests")
        ++ shown (codes "allow(\"client-a\") #1: ") call1.0 []
        ++ shown (codes "allow(\"client-a\") #2: ") call2.0 []
        ++ shown (codes "allow(\"client-a\") #3: ") call3.0 []
        ++ newline ∷ []
        ++ set_title (codes "Denial at the limit")
        ++ shown (codes "allow(\"client-a\") #4: ") call4.0 (codes " (limit reached)")
        ++ newline ∷ []
        ++ set_title (codes "Explicit time points")
        ++ shown (codes "allow(\"client-a\") after window elapses: ") call5.0 [])

  unfoldable pub denial_handling : Option (List Piece)
  denial_handling = do
    limiter ← construct c 2 (pos 1000) 100
    let call1 = allow c client_a now limiter
    let call2 = allow c client_a now call1.1
    let call3 = allow c client_a now call2.1
    let call4 = allow c client_a now call3.1
    let call5 = allow c client_a now call4.1
    some (
        set_title (codes "Branching on the result")
        ++ choice call1.0 (codes "request #1: allowed") (codes "request #1: denied")
        ++ choice call2.0 (codes "request #2: allowed") (codes "request #2: denied")
        ++ set_title (codes "Rejecting once the limit is reached")
        ++ elim (call3.0) [
          | true ↦ []
          | false ↦
              text (codes "request #3: denied -- respond with 429 Too Many Requests") ∷ newline ∷ []
        ]
        ++ set_title (codes "Repeated denials stay consistent")
        ++ choice call4.0 (codes "request #4: allowed") (codes "request #4: denied")
        ++ choice call5.0 (codes "request #5: allowed") (codes "request #5: denied"))

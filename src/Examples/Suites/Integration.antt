-- ===== src/Examples/Suites/Integration.antt =====
-- examples/suite/integration: embedding_in_middleware.cpp and cache_capacity_tuning.cpp. A handler of
-- the middleware reads the clock itself, so each call has its own time.
use rate_throttle.Prelude.{ℕ, List, [], ◌∷◌, ◌++◌, Option, some, true, false}
use rate_throttle.Prelude.Int.{ℤ, pos}
use rate_throttle.Text.{Bytes, codes, bytes_dec}
use rate_throttle.Regression.Report.{Piece, text, newline}
use rate_throttle.LruCache.{LruCache}
use rate_throttle.Limiter.{RateLimitWindow, RateLimiter, construct, allow}
use rate_throttle.Examples.Suites.{◌>>=◌, set_title, shown}
use rate_throttle.Examples.Suites.Patterns.{third_ip}

abbrev pub clients : List Bytes
clients = codes "c1" ∷ codes "c2" ∷ codes "c3" ∷ codes "c4" ∷ codes "c5" ∷ []

module _ (c : LruCache Bytes RateLimitWindow bytes_dec) where
  -- the constructor of ThrottleMiddleware, whose one member is the limiter
  unfoldable pub throttle_middleware : ℕ → ℤ → Option (RateLimiter c)
  throttle_middleware requests window = construct c requests window 1000

  unfoldable pub handle : Bytes → ℤ → RateLimiter c → Bytes × RateLimiter c
  handle client_ip now limiter =
      let (allowed, limiter') = allow c client_ip now limiter in
      (elim allowed [ true ↦ codes "200 OK" | false ↦ codes "429 Too Many Requests" ], limiter')

  -- the times of the five calls
  unfoldable pub embedding_in_middleware : ℤ → ℤ → ℤ → ℤ → ℤ → Option (List Piece)
  unfolding throttle_middleware handle
  embedding_in_middleware t1 t2 t3 t4 t5 = do
    middleware ← throttle_middleware 2 (pos 1000)
    let call1 = handle third_ip t1 middleware
    let call2 = handle third_ip t2 call1.1
    let call3 = handle third_ip t3 call2.1
    login_middleware ← throttle_middleware 1 (pos 5000)
    let call4 = handle third_ip t4 login_middleware
    let call5 = handle third_ip t5 call4.1
    some (
        set_title (codes "Wrapping RateLimiter behind a handler")
        ++ text (codes "GET /api/data from 203.0.113.7: " ++ call1.0) ∷ newline ∷ []
        ++ text (codes "GET /api/data from 203.0.113.7: " ++ call2.0) ∷ newline ∷ []
        ++ set_title (codes "The limit surfaces as a normal response")
        ++ text (codes "GET /api/data from 203.0.113.7: " ++ call3.0) ∷ newline ∷ []
        ++ set_title (codes "A second middleware instance with a different limit")
        ++ text (codes "POST /login from 203.0.113.7: " ++ call4.0) ∷ newline ∷ []
        ++ text (codes "POST /login from 203.0.113.7: " ++ call5.0) ∷ newline ∷ [])

  module _ (now : ℤ) where
    -- the loop over the clients: the limiter behind it, and what it prints
    unfoldable pub first_requests : List Bytes → RateLimiter c → RateLimiter c × List Piece
    first_requests [] limiter = (limiter, [])
    first_requests (client ∷ rest) limiter =
        let call = allow c client now limiter in
        let (limiter', pieces) = first_requests rest call.1 in
        (limiter', shown (client ++ codes " request #1: ") call.0 [] ++ pieces)

    unfoldable pub cache_capacity_tuning : Option (List Piece)
    unfolding first_requests
    cache_capacity_tuning = do
      undersized ← construct c 1 (pos 1000) 2
      let (undersized', pieces) = first_requests clients undersized
      let again = allow c (codes "c1") now undersized'
      sized ← construct c 1 (pos 1000) 100
      let (sized', silent) = first_requests clients sized
      let again' = allow c (codes "c1") now sized'
      some (
          set_title (codes "Undersized capacity for the client population")
          ++ pieces
          ++ newline ∷ []
          ++ set_title (codes "The consequence: early clients get a free burst")
          ++ shown (codes "c1 request #2: ") again.0 (codes " (should be denied, isn't)")
          ++ newline ∷ []
          ++ set_title (codes "Correctly sized capacity")
          ++ shown (codes "c1 request #2: ") again'.0 (codes " (correctly denied, no eviction)"))

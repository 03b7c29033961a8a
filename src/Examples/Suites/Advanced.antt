-- ===== src/Examples/Suites/Advanced.antt =====
-- examples/suite/advanced: custom_time_source.cpp, eviction_free_burst.cpp and
-- boundary_burst_behavior.cpp.
use rate_throttle.Prelude.{List, [], ◌∷◌, ◌++◌, Option, some, Bool}
use rate_throttle.Prelude.Int.{ℤ, pos}
use rate_throttle.Text.{Bytes, codes, bytes_dec}
use rate_throttle.Regression.Report.{Piece, newline}
use rate_throttle.LruCache.{LruCache}
use rate_throttle.Limiter.{RateLimitWindow, RateLimiter, construct, allow}
use rate_throttle.Examples.Suites.{◌>>=◌, set_title, shown, later_by, client_a, client_b, client_c}

pub record IncomingRequest : Type 0 where
  pub client_key : Bytes
  pub received_at : ℤ

module _ (c : LruCache Bytes RateLimitWindow bytes_dec) (now : ℤ) where
  -- the lambda `handle`, and the calls with a request's own time
  unfoldable pub handle_request : IncomingRequest → RateLimiter c → Bool × RateLimiter c
  handle_request r limiter = allow c r.client_key r.received_at limiter

  unfoldable pub custom_time_source : Option (List Piece)
  unfolding handle_request
  custom_time_source = do
    limiter ← construct c 2 (pos 1000) 100
    let call1 = handle_request (record { client_key = client_a; received_at = now }) limiter
    let earlier : IncomingRequest = record { client_key = client_b; received_at = now }
    let later : IncomingRequest = record { client_key = client_b; received_at = later_by 500 now }
    let call2 = handle_request later call1.1
    let call3 = handle_request earlier call2.1
    let call4 = handle_request (record { client_key = client_c; received_at = now }) call3.1
    some (
        set_title (codes "Using a request's own timestamp")
        ++ shown (codes "processed using request's receivedAt: ") call1.0 []
        ++ newline ∷ []
        ++ set_title (codes "Out-of-order processing, correct results")
        ++ shown (codes "later   allowed: ") call2.0 []
        ++ shown (codes "earlier allowed: ") call3.0 []
        ++ set_title (codes "Wrapping the timestamp plumbing")
        ++ shown (codes "handle(req2): ") call4.0 [])

  unfoldable pub eviction_free_burst : Option (List Piece)
  eviction_free_burst = do
    limiter ← construct c 1 (pos 1000) 2
    let call1 = allow c client_a now limiter
    let call2 = allow c client_a now call1.1
    let call3 = allow c client_b now call2.1
    let call4 = allow c client_c now call3.1
    let call5 = allow c client_a now call4.1
    some (
        set_title (codes "A key reaches its limit")
        ++ shown (codes "client-a request #1: ") call1.0 []
        ++ shown (codes "client-a request #2: ") call2.0 (codes " (denied)")
        ++ newline ∷ []
        ++ set_title (codes "Other keys evict it from the cache")
        ++ shown (codes "client-b request #1: ") call3.0 []
        ++ shown (codes "client-c request #1: ") call4.0 (codes " (evicts client-a)")
        ++ newline ∷ []
        ++ set_title (codes "The evicted key gets a free burst")
        ++ shown (codes "client-a request #3: ") call5.0
            (codes " (looks like a new key -- limit effectively reset)"))

  unfoldable pub boundary_burst_behavior : Option (List Piece)
  boundary_burst_behavior = do
    limiter ← construct c 3 (pos 1000) 100
    let window_end = later_by 999 now
    let next_window_start = later_by 1000 window_end
    let call1 = allow c client_a window_end limiter
    let call2 = allow c client_a window_end call1.1
    let call3 = allow c client_a window_end call2.1
    let call4 = allow c client_a next_window_start call3.1
    let call5 = allow c client_a next_window_start call4.1
    let call6 = allow c client_a next_window_start call5.1
    let call7 = allow c client_a next_window_start call6.1
    some (
        set_title (codes "Exhausting the limit at the end of a window")
        ++ shown (codes "at t=999ms, request #1: ") call1.0 []
        ++ shown (codes "at t=999ms, request #2: ") call2.0 []
        ++ shown (codes "at t=999ms, request #3: ") call3.0 (codes " (limit reached)")
        ++ newline ∷ []
        ++ set_title (codes "The next window starts fresh, immediately")
        ++ shown (codes "at t=1999ms, request #1: ") call4.0 []
        ++ shown (codes "at t=1999ms, request #2: ") call5.0 []
        ++ shown (codes "at t=1999ms, request #3: ") call6.0
            (codes " -- 6 requests total in ~1ms of wall-clock time")
        ++ newline ∷ []
        ++ set_title (codes "The burst is still bounded")
        ++ shown (codes "at t=1999ms, request #4: ") call7.0 (codes " (denied)"))

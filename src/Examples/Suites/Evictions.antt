-- ===== src/Examples/Suites/Evictions.antt =====
-- examples/suite: what eviction_free_burst.cpp and cache_capacity_tuning.cpp print, whatever the cache.
use mathlib.Core.List.{lookup}
use rate_throttle.Prelude.{
  ℕ, ◌^◌, ◌<◌, ◌≡◌, refl, Bool, true, false, List, [], ◌∷◌, ◌++◌, some, arith, map, ◌∙◌, ℕ_discrete,
}
use rate_throttle.Prelude.Int.{ℤ, pos}
use rate_throttle.Assoc.{remove}
use rate_throttle.Text.{codes, bytes_dec, Bytes}
use rate_throttle.Regression.Report.{Piece, newline}
use rate_throttle.LruCache.{LruCache}
use rate_throttle.Limiter.{RateLimitWindow, RateLimiter, construct, allow, has_expired}
use rate_throttle.Limiter.Calls.{next, allow-next}
use rate_throttle.Limiter.Sound.{construct-IsSound, construct-entries}
use rate_throttle.Limiter.Trace.{run}
use rate_throttle.Limiter.Window.{has_expired-is_over}
use rate_throttle.Examples.Suites.{set_title, shown, client_a, client_b, client_c}
use rate_throttle.Examples.Suites.Advanced.{eviction_free_burst}
use rate_throttle.Examples.Suites.Integration.{clients, first_requests, cache_capacity_tuning}
use rate_throttle.Examples.Suites.Answers.{second_active}

module _ {K : Type 0} (dec : Discrete K) (limit : ℕ) (duration : ℤ) (room : ℕ) where
  -- the answers to a sequence of calls, over the entries of the cache alone
  unfoldable pub next_answers : List (K × ℤ) → List (K × RateLimitWindow) → List Bool
  next_answers [] es = []
  next_answers ((k, t) ∷ tr) es =
      let (b, es') = next dec limit duration room k t es in b ∷ next_answers tr es'

  next_answers-cons :
      (k : K) (t : ℤ) (tr : List (K × ℤ)) (es : List (K × RateLimitWindow))
      → next_answers ((k, t) ∷ tr) es
        ≡ (next dec limit duration room k t es).0
          ∷ next_answers tr (next dec limit duration room k t es).1
  unfolding next_answers
  next_answers-cons k t tr es = refl

module _ {K : Type 0} {dec : Discrete K} (c : LruCache K RateLimitWindow dec) where
  run-next_answers :
      (tr : List (K × ℤ)) (r : RateLimiter c)
      → (run c tr r).0
        ≡ next_answers dec r.requests_per_window r.window_duration
            (c.capacity r.cache)
            tr
            (c.entries r.cache)
  unfolding run
  run-next_answers [] r = unfold next_answers in refl
  run-next_answers ((k, t) ∷ tr) r =
      let (answer, entries, room, limit, span) = allow-next c k t r in
      let r' = (allow c k t r).1 in
      let taken : (run c ((k, t) ∷ tr) r).0 ≡ (allow c k t r).0 ∷ (run c tr r').0 = refl in
      cc (
        taken,
        run-next_answers tr r',
        next_answers-cons dec r.requests_per_window r.window_duration (c.capacity r.cache) k t tr
            (c.entries r.cache),
        answer,
        entries,
        room,
        limit,
        span,
      )

  -- A limiter that is just constructed answers over no entries.
  pub fresh_run-next_answers :
      (limit room : ℕ) (duration : ℤ) (tr : List (K × ℤ))
      → limit < 2 ^ 64
      → 0 < room
      → (r : RateLimiter c) × (construct c limit duration room ≡ some r)
        × ((run c tr r).0 ≡ next_answers dec limit duration room tr [])
  fresh_run-next_answers limit room duration tr small roomy =
      let (r, made, s, untracked, same, span) =
        construct-IsSound c limit duration room small roomy in
      let (empty, size) = construct-entries c limit duration room r roomy made in
      (r, made, cc (run-next_answers tr r, empty, size, same, span))

-- Another request of the same time finds the window active.
active :
    (now : ℤ) (n : ℕ)
    → has_expired (pos 1000) now (record { window_start = now; count = n }) ≡ false
active now n =
    has_expired-is_over (pos 1000) now (record { window_start = now; count = n })
    ∙ second_active now n

-- the entry of a client's first request
abbrev opened : ℤ → Bytes → Bytes × RateLimitWindow
opened now k = (k, record { window_start = now; count = 1 })

again :
    (now : ℤ)
    → next bytes_dec 1 (pos 1000) 2 client_a now (opened now client_a ∷ [])
      ≡ (false, opened now client_a ∷ [])
unfolding next lookup remove bytes_dec ℕ_discrete
again now = rw (active now 1) refl

burst_answers :
    (now : ℤ)
    → next_answers bytes_dec 1
        (pos 1000)
        2
        ((client_a, now)
          ∷ (client_a, now)
          ∷ (client_b, now)
          ∷ (client_c, now)
          ∷ (client_a, now)
          ∷ [])
        []
      ≡ true ∷ false ∷ true ∷ true ∷ true ∷ []
unfolding next_answers
burst_answers now =
    let a = opened now client_a in
    let b = opened now client_b in
    let d = opened now client_c in
    let first : next bytes_dec 1 (pos 1000) 2 client_a now [] ≡ (true, a ∷ []) =
      unfold next lookup remove bytes_dec ℕ_discrete in refl in
    let second : next bytes_dec 1 (pos 1000) 2 client_b now (a ∷ []) ≡ (true, b ∷ a ∷ []) =
      unfold next lookup remove bytes_dec ℕ_discrete in refl in
    let third : next bytes_dec 1 (pos 1000) 2 client_c now (b ∷ a ∷ []) ≡ (true, d ∷ b ∷ []) =
      unfold next lookup remove bytes_dec ℕ_discrete in refl in
    let last : next bytes_dec 1 (pos 1000) 2 client_a now (d ∷ b ∷ []) ≡ (true, a ∷ d ∷ []) =
      unfold next lookup remove bytes_dec ℕ_discrete in refl in
    rw (first, again now, second, third, last) refl

abbrev pub evicted_lines : List Piece
evicted_lines =
    set_title (codes "A key reaches its limit")
    ++ shown (codes "client-a request #1: ") true []
    ++ shown (codes "client-a request #2: ") false (codes " (denied)")
    ++ newline ∷ []
    ++ set_title (codes "Other keys evict it from the cache")
    ++ shown (codes "client-b request #1: ") true []
    ++ shown (codes "client-c request #1: ") true (codes " (evicts client-a)")
    ++ newline ∷ []
    ++ set_title (codes "The evicted key gets a free burst")
    ++ shown (codes "client-a request #3: ") true
        (codes " (looks like a new key -- limit effectively reset)")

-- For every cache and every reading of the clock, the example prints that the second request of
-- client-a is refused and that its third, behind one request of each of two other clients, is let
-- through.
pub eviction_free_burst-evicted :
    (c : LruCache Bytes RateLimitWindow bytes_dec) (now : ℤ)
    → eviction_free_burst c now ≡ some evicted_lines
unfolding eviction_free_burst run
eviction_free_burst-evicted c now =
    let (r, made, bools) =
      fresh_run-next_answers c 1 2 (pos 1000)
        ((client_a, now)
          ∷ (client_a, now)
          ∷ (client_b, now)
          ∷ (client_c, now)
          ∷ (client_a, now)
          ∷ [])
        (omega arith) (omega arith) in
    rw made (cc (bools, burst_answers now))

-- the first requests of the clients, and one more of the first client
abbrev tuning : ℤ → List (Bytes × ℤ)
tuning now = map (λ k. (k, now)) (clients ++ codes "c1" ∷ [])

undersized_answers :
    (now : ℤ)
    → next_answers bytes_dec 1 (pos 1000) 2 (tuning now) []
      ≡ true ∷ true ∷ true ∷ true ∷ true ∷ true ∷ []
unfolding next_answers next lookup remove bytes_dec ℕ_discrete
undersized_answers now = refl

sized_answers :
    (now : ℤ)
    → next_answers bytes_dec 1 (pos 1000) 100 (tuning now) []
      ≡ true ∷ true ∷ true ∷ true ∷ true ∷ false ∷ []
unfolding next_answers next lookup remove bytes_dec ℕ_discrete
sized_answers now = cc (active now 1)

same_six :
    (a b d e f g a' b' d' e' f' g' : Bool)
    → a ∷ b ∷ d ∷ e ∷ f ∷ g ∷ [] ≡ a' ∷ b' ∷ d' ∷ e' ∷ f' ∷ g' ∷ []
    → (a ≡ a') × (b ≡ b') × (d ≡ d') × (e ≡ e') × (f ≡ f') × (g ≡ g')
same_six a b d e f g a' b' d' e' f' g' h = (cc h, cc h, cc h, cc h, cc h, cc h)

abbrev pub tuning_lines : List Piece
tuning_lines =
    set_title (codes "Undersized capacity for the client population")
    ++ (shown (codes "c1 request #1: ") true []
        ++ shown (codes "c2 request #1: ") true []
        ++ shown (codes "c3 request #1: ") true []
        ++ shown (codes "c4 request #1: ") true []
        ++ shown (codes "c5 request #1: ") true [])
    ++ newline ∷ []
    ++ set_title (codes "The consequence: early clients get a free burst")
    ++ shown (codes "c1 request #2: ") true (codes " (should be denied, isn't)")
    ++ newline ∷ []
    ++ set_title (codes "Correctly sized capacity")
    ++ shown (codes "c1 request #2: ") false (codes " (correctly denied, no eviction)")

-- For every cache and every reading of the clock, the example prints that the first request of each of
-- the five clients is let through, that the second one of the first client is let through by the
-- limiter that tracks two clients, and that it is refused by the one that tracks a hundred.
pub cache_capacity_tuning-shown :
    (c : LruCache Bytes RateLimitWindow bytes_dec) (now : ℤ)
    → cache_capacity_tuning c now ≡ some tuning_lines
unfolding cache_capacity_tuning first_requests run
cache_capacity_tuning-shown c now =
    let (small, made, bools) =
      fresh_run-next_answers c 1 2 (pos 1000) (tuning now) (omega arith) (omega arith) in
    let (large, made', bools') =
      fresh_run-next_answers c 1 100 (pos 1000) (tuning now) (omega arith) (omega arith) in
    let (e1, e2, e3, e4, e5, e6) =
      same_six _ _ _ _ _ _ true true true true true true (bools ∙ undersized_answers now) in
    let (_, _, _, _, _, last) =
      same_six _ _ _ _ _ _ true true true true true false (bools' ∙ sized_answers now) in
    rw (made, made', e1, e2, e3, e4, e5, e6, last) refl

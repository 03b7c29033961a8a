-- ===== src/Examples/Suites/Answers.antt =====
-- examples/suite: the bools that the examples print for one client, whatever the cache and the clock.
use rate_throttle.Prelude.{
  ℕ, ◌^◌, ◌<◌, ◌≡◌, refl, true, false, List, [], ◌∷◌, ◌++◌, none, some, arith, map,
}
use rate_throttle.Prelude.Int.{ℤ, pos, ◌*ℤ◌, +ℤ_parts}
use rate_throttle.Text.{Bytes, codes, bytes_dec}
use rate_throttle.Regression.Report.{Piece, newline}
use rate_throttle.LruCache.{LruCache}
use rate_throttle.Limiter.{RateLimitWindow, RateLimiter, construct, allow, nanoseconds}
use rate_throttle.Limiter.Calls.{peek, allow-next}
use rate_throttle.Limiter.Sound.{IsSound, allow-step, allow-IsSound, construct-IsSound}
use rate_throttle.Limiter.Trace.{run}
use rate_throttle.Limiter.Window.{is_over, step, answers, answers-cons}
use rate_throttle.Examples.Suites.{set_title, shown, later_by, client_a}
use rate_throttle.Examples.Suites.Advanced.{boundary_burst_behavior}

module _ {K : Type 0} {dec : Discrete K} (c : LruCache K RateLimitWindow dec) (key : K) where
  -- The answers to the requests of one key are those of its automaton.
  run-answers :
      (ts : List ℤ) (r : RateLimiter c)
      → IsSound c r
      → (run c (map (λ t. (key, t)) ts) r).0
        ≡ answers r.requests_per_window r.window_duration ts (peek c r key)
  unfolding run
  run-answers [] r s = unfold answers in refl
  run-answers (t ∷ ts) r s =
      let (_, _, _, limit, span) = allow-next c key t r in
      let (answer, kept) = allow-step c key t r s in
      cc (
        run-answers ts (allow c key t r).1 (allow-IsSound c key t r s),
        answers-cons r.requests_per_window r.window_duration t ts (peek c r key),
        limit,
        span,
        answer,
        kept,
      )

  -- A limiter that is just constructed answers as the automaton of a key that is not tracked.
  fresh_run :
      (limit room : ℕ) (duration : ℤ) (ts : List ℤ)
      → limit < 2 ^ 64
      → 0 < room
      → (r : RateLimiter c) × (construct c limit duration room ≡ some r)
        × ((run c (map (λ t. (key, t)) ts) r).0 ≡ answers limit duration ts none)
  fresh_run limit room duration ts small roomy =
      let (r, made, s, untracked, same, span) =
        construct-IsSound c limit duration room small roomy in
      (r, made, cc (run-answers ts r s, same, span, untracked key))

-- A window of one second is active when it opens, and over a second later.
pub second_active :
    (now : ℤ) (n : ℕ) → is_over (pos 1000) now (record { window_start = now; count = n }) ≡ false
unfolding is_over nanoseconds ◌*ℤ◌
second_active now n = ground (arith, +ℤ_parts now (pos 1_000_000_000))

second_over :
    (now : ℤ) (n : ℕ)
    → is_over (pos 1000) (later_by 1000 now) (record { window_start = now; count = n }) ≡ true
unfolding is_over nanoseconds ◌*ℤ◌
second_over now n = ground (arith, +ℤ_parts now (pos 1_000_000_000))

-- Four requests beyond a limit of three, at the times of both windows.
burst_answers :
    (now : ℤ)
    → answers 3
        (pos 1000)
        (now
          ∷ now
          ∷ now
          ∷ later_by 1000 now
          ∷ later_by 1000 now
          ∷ later_by 1000 now
          ∷ later_by 1000 now
          ∷ [])
        none
      ≡ true ∷ true ∷ true ∷ true ∷ true ∷ true ∷ false ∷ []
unfolding answers step
burst_answers now =
    let later = later_by 1000 now in
    rw
      (
        second_active now 1,
        second_active now 2,
        second_over now 3,
        second_active later 1,
        second_active later 2,
        second_active later 3,
      )
      refl

abbrev pub burst_lines : List Piece
burst_lines =
    set_title (codes "Exhausting the limit at the end of a window")
    ++ shown (codes "at t=999ms, request #1: ") true []
    ++ shown (codes "at t=999ms, request #2: ") true []
    ++ shown (codes "at t=999ms, request #3: ") true (codes " (limit reached)")
    ++ newline ∷ []
    ++ set_title (codes "The next window starts fresh, immediately")
    ++ shown (codes "at t=1999ms, request #1: ") true []
    ++ shown (codes "at t=1999ms, request #2: ") true []
    ++ shown (codes "at t=1999ms, request #3: ") true
        (codes " -- 6 requests total in ~1ms of wall-clock time")
    ++ newline ∷ []
    ++ set_title (codes "The burst is still bounded")
    ++ shown (codes "at t=1999ms, request #4: ") false (codes " (denied)")

-- For every cache and every reading of the clock, the example prints that the three requests at the
-- end of the first window are let through, that the three at the start of the next one are, and that
-- the fourth is not.
pub boundary_burst_behavior-burst :
    (c : LruCache Bytes RateLimitWindow bytes_dec) (now : ℤ)
    → boundary_burst_behavior c now ≡ some burst_lines
unfolding boundary_burst_behavior run
boundary_burst_behavior-burst c now =
    let first = later_by 999 now in
    let second = later_by 1000 first in
    let (r, made, bools) =
      fresh_run c client_a 3 100 (pos 1000)
        (first ∷ first ∷ first ∷ second ∷ second ∷ second ∷ second ∷ []) (omega arith)
        (omega arith) in
    rw made (cc (bools, burst_answers first))

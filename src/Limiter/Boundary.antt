-- ===== src/Limiter/Boundary.antt =====
-- The burst at a window boundary that the header of RateLimiter.h documents: it is reached.
use rate_throttle.Prelude.{
  ℕ, zero, suc, ◌+◌, ◌*◌, ◌≡◌, refl, true, false, List, [], ◌∷◌, ◌++◌, Option, none, some, arith,
  length, ltb, ◌==◌, replicate, length-replicate, Bool-cases, inl, inr, ◌∙◌,
}
use rate_throttle.Prelude.Int.{ℤ, pos, +ℤ_parts, ltb_ℤ}
use rate_throttle.Limiter.{RateLimitWindow, nanoseconds}
use rate_throttle.Limiter.Window.{
  is_over, step, answers, allowed, AllActive, allowed_active, AllActive-count, allowed_fresh,
}

-- the window that is kept after a sequence of requests
final : ℕ → ℤ → List ℤ → Option RateLimitWindow → Option RateLimitWindow
final limit duration [] w = w
final limit duration (t ∷ ts) w = final limit duration ts (step limit duration t w).1

allowed-append :
    (limit : ℕ) (duration : ℤ) (ts us : List ℤ) (w : Option RateLimitWindow)
    → allowed (answers limit duration (ts ++ us) w)
      ≡ allowed (answers limit duration ts w)
        + allowed (answers limit duration us (final limit duration ts w))
unfolding answers final
allowed-append limit duration [] us w = omega arith
allowed-append limit duration (t ∷ ts) us w =
    ground (arith, allowed-append limit duration ts us (step limit duration t w).1)

step_active :
    (limit : ℕ) (duration : ℤ) (w : RateLimitWindow) (t : ℤ)
    → is_over duration t w ≡ false
    → (n : ℕ) × ((step limit duration t (some w)).1 ≡ some (record w { count = n }))
unfolding step
step_active limit duration w t a = elim (Bool-cases (limit == 0)) [
  | inl none_allowed ↦ (w.count, rw none_allowed)
  | inr positive ↦ elim (Bool-cases (ltb w.count limit)) [
    | inl room ↦ (w.count + 1, rw (positive, a, room))
    | inr full ↦ (w.count, rw (positive, a, full))
  ]
]

-- While a window is active, it is kept with a larger count.
final_active :
    (limit : ℕ) (duration : ℤ) (w : RateLimitWindow) (ts : List ℤ)
    → AllActive duration w ts
    → (n : ℕ) × (final limit duration ts (some w) ≡ some (record w { count = n }))
unfolding final
final_active limit duration w [] a = (w.count, refl)
final_active limit duration w (t ∷ ts) a =
    let (n, stepped) = step_active limit duration w t a.0 in
    let (n', ended) =
      final_active limit duration (record w { count = n }) ts
        (AllActive-count duration w n ts a.1) in
    (n', rw stepped ended)

-- At the very time at which a window opens it is active.
active_at_start :
    (duration u : ℤ) (m : ℕ)
    → ltb_ℤ (pos 0) (nanoseconds duration) ≡ true
    → AllActive duration (record { window_start = u; count = 1 }) (replicate m u)
unfolding is_over
active_at_start duration u zero d = tt
active_at_start duration u (suc m) d =
    (ground (arith, +ℤ_parts u (nanoseconds duration)), active_at_start duration u m d)

-- The full burst after the window has expired.
second_burst :
    (m : ℕ) (duration u : ℤ) (w : RateLimitWindow)
    → is_over duration u w ≡ true
    → ltb_ℤ (pos 0) (nanoseconds duration) ≡ true
    → allowed (answers (suc m) duration (replicate (suc m) u) (some w)) ≡ suc m
unfolding answers step
second_burst m duration u w e d = ground (
  arith,
  allowed_active (suc m) duration (record { window_start = u; count = 1 }) (replicate m u)
      (omega arith) (omega arith) (active_at_start duration u m d),
  length-replicate m u,
)

final_fresh :
    (m : ℕ) (duration t : ℤ) (mid : List ℤ)
    → AllActive duration (record { window_start = t; count = 1 }) mid
    → (k : ℕ) × (final (suc m) duration (t ∷ mid) none
        ≡ some (record { window_start = t; count = k }))
unfolding final step
final_fresh m duration t mid a =
    let (k, e) = final_active (suc m) duration (record { window_start = t; count = 1 }) mid a in
    (k, ground (arith, e))

is_over-count :
    (duration u : ℤ) (w : RateLimitWindow) (n : ℕ)
    → is_over duration u (record w { count = n }) ≡ is_over duration u w
unfolding is_over
is_over-count duration u w n = refl

-- Where `t` opens a window, `mid` are limit - 1 more times at which it is active, and `u` is a time at
-- which it has expired, of a positive duration: all of these and `limit` requests at `u` are let
-- through, twice the limit.
pub boundary_burst :
    (limit : ℕ) (duration t u : ℤ) (mid : List ℤ)
    → length mid + 1 ≡ limit
    → AllActive duration (record { window_start = t; count = 1 }) mid
    → is_over duration u (record { window_start = t; count = 1 }) ≡ true
    → ltb_ℤ (pos 0) (nanoseconds duration) ≡ true
    → allowed (answers limit duration (t ∷ mid ++ replicate limit u) none) ≡ 2 * limit
boundary_burst zero duration t u mid n a e d = absurd (omega arith)
boundary_burst (suc m) duration t u mid n a e d =
    let opened : RateLimitWindow = record { window_start = t; count = 1 } in
    let (k, ended) = final_fresh m duration t mid a in
    let full : RateLimitWindow = record opened { count = k } in
    ground (
      arith,
      allowed_fresh (suc m) duration t mid a,
      allowed-append (suc m) duration (t ∷ mid) (replicate (suc m) u) none,
      ended,
      second_burst m duration u full (is_over-count duration u opened k ∙ e) d,
    )

-- ===== src/Limiter/Window.antt =====
-- The fixed window of one key on its own: an automaton that is the specification of the limiter, and
-- how many requests it lets through.
use Prim.Native.Nat.{min}
use rate_throttle.Prelude.{
  ℕ, zero, suc, ◌+◌, ◌*◌, ◌-◌, ◌≤◌, ◌<◌, ◌≡◌, refl, Bool, true, false, List, [], ◌∷◌, Option, none,
  some, arith, length, ltb, ◌==◌, if◌then◌else◌,
}
use rate_throttle.Prelude.Int.{ℤ, ◌+ℤ◌, ◌≤ℤ◌, ltb_ℤ, leb_ℤ, +ℤ_parts, -ℤ_parts}
use rate_throttle.Limiter.{RateLimitWindow, nanoseconds, has_expired}

-- The window ends one duration after it began, and a request at the end is behind it.
unfoldable pub is_over : ℤ → ℤ → RateLimitWindow → Bool
is_over duration now w = leb_ℤ (w.window_start +ℤ nanoseconds duration) now

-- The limiter's own test, which compares the time that has passed.
pub has_expired-is_over :
    (duration now : ℤ) (w : RateLimitWindow) → has_expired duration now w ≡ is_over duration now w
unfolding has_expired is_over
has_expired-is_over duration now w =
    ground (arith, -ℤ_parts now w.window_start, +ℤ_parts w.window_start (nanoseconds duration))

-- A request at `now`: the answer, and the window that is kept.
unfoldable pub step : ℕ → ℤ → ℤ → Option RateLimitWindow → Bool × Option RateLimitWindow
step limit duration now none =
    if limit == 0 then (false, none) else (true, some (record { window_start = now; count = 1 }))
step limit duration now (some w) =
    if limit == 0
    then (false, some w)
    else if is_over duration now w
    then (true, some (record { window_start = now; count = 1 }))
    else if ltb w.count limit
    then (true, some (record w { count = w.count + 1 }))
    else (false, some w)

-- the answers to a sequence of requests
unfoldable pub answers : ℕ → ℤ → List ℤ → Option RateLimitWindow → List Bool
answers limit duration [] w = []
answers limit duration (t ∷ ts) w =
    let (b, w') = step limit duration t w in b ∷ answers limit duration ts w'

pub answers-cons :
    (limit : ℕ) (duration t : ℤ) (ts : List ℤ) (w : Option RateLimitWindow)
    → answers limit duration (t ∷ ts) w
      ≡ (step limit duration t w).0 ∷ answers limit duration ts (step limit duration t w).1
unfolding answers
answers-cons limit duration t ts w = refl

abbrev pub allowed : List Bool → ℕ
allowed [] = 0
allowed (true ∷ bs) = suc (allowed bs)
allowed (false ∷ bs) = allowed bs

-- A stored window counts at least its first request, and never more than the limit.
abbrev pub IsWithin : ℕ → Option RateLimitWindow → Type 0
IsWithin limit none = Unit
IsWithin limit (some w) = (1 ≤ w.count) × (w.count ≤ limit)

-- Every time lies in the interval of one window duration that begins at `from`.
abbrev pub Spans : ℤ → ℤ → List ℤ → Type 0
Spans from duration [] = Unit
Spans from duration (t ∷ ts) =
    (from ≤ℤ t) × (ltb_ℤ t (from +ℤ nanoseconds duration) ≡ true) × Spans from duration ts

-- None of the times has reached the end of the window.
abbrev pub AllActive : ℤ → RateLimitWindow → List ℤ → Type 0
AllActive duration w [] = Unit
AllActive duration w (t ∷ ts) = (is_over duration t w ≡ false) × AllActive duration w ts

pub step-IsWithin :
    (limit : ℕ) (duration now : ℤ) (w : Option RateLimitWindow)
    → IsWithin limit w
    → IsWithin limit (step limit duration now w).1
unfolding step
step-IsWithin limit duration now none h = ground arith
step-IsWithin limit duration now (some w) h = ground arith

-- A later window that opened inside the interval is active for the rest of it.
not_expired :
    (from duration start t : ℤ) (n : ℕ)
    → from ≤ℤ start
    → ltb_ℤ t (from +ℤ nanoseconds duration) ≡ true
    → is_over duration t (record { window_start = start; count = n }) ≡ false
unfolding is_over
not_expired from duration start t n h lt =
    ground (arith, +ℤ_parts from (nanoseconds duration), +ℤ_parts start (nanoseconds duration))

-- Whether a window is active does not depend on its count.
pub AllActive-count :
    (duration : ℤ) (w : RateLimitWindow) (n : ℕ) (ts : List ℤ)
    → AllActive duration w ts
    → AllActive duration (record w { count = n }) ts
unfolding is_over
AllActive-count duration w n [] a = tt
AllActive-count duration w n (t ∷ ts) a = (a.0, AllActive-count duration w n ts a.1)

-- While one window is active, what is let through is what its count leaves.
pub allowed_active :
    (limit : ℕ) (duration : ℤ) (w : RateLimitWindow) (ts : List ℤ)
    → 0 < limit
    → w.count ≤ limit
    → AllActive duration w ts
    → allowed (answers limit duration ts (some w)) ≡ min (limit - w.count) (length ts)
unfolding answers step
allowed_active limit duration w [] pos h a = omega arith
allowed_active limit duration w (t ∷ ts) pos h a = ground (
  arith,
  allowed_active limit duration w ts pos h a.1,
  allowed_active limit duration (record w { count = w.count + 1 }) ts pos,
  AllActive-count duration w (w.count + 1) ts a.1,
)

allowed-zero :
    (duration : ℤ) (ts : List ℤ) (w : Option RateLimitWindow)
    → allowed (answers 0 duration ts w) ≡ 0
unfolding answers step
allowed-zero duration [] w = refl
allowed-zero duration (t ∷ ts) none = allowed-zero duration ts none
allowed-zero duration (t ∷ ts) (some w) = allowed-zero duration ts (some w)

-- From an untracked key on, one window lets through exactly the first `limit` requests.
pub allowed_fresh :
    (limit : ℕ) (duration t : ℤ) (ts : List ℤ)
    → AllActive duration (record { window_start = t; count = 1 }) ts
    → allowed (answers limit duration (t ∷ ts) none) ≡ min limit (length (t ∷ ts))
unfolding answers step
allowed_fresh zero duration t ts a = omega (arith, allowed-zero duration ts none)
allowed_fresh (suc n) duration t ts a =
    ground (arith, allowed_active (suc n) duration (record { window_start = t; count = 1 }) ts)

AllActive-of_Spans :
    (from duration start : ℤ) (n : ℕ) (ts : List ℤ)
    → from ≤ℤ start
    → Spans from duration ts
    → AllActive duration (record { window_start = start; count = n }) ts
AllActive-of_Spans from duration start n [] h s = tt
AllActive-of_Spans from duration start n (t ∷ ts) h s =
    (not_expired from duration start t n h s.1, AllActive-of_Spans from duration start n ts h s.2)

-- A window that opens inside the interval lets through at most the limit in the rest of it.
allowed_opened :
    (limit : ℕ) (duration from t : ℤ) (ts : List ℤ)
    → 0 < limit
    → from ≤ℤ t
    → Spans from duration ts
    → allowed (answers limit duration ts (some (record { window_start = t; count = 1 }))) < limit
allowed_opened limit duration from t ts pos h s = omega (
  arith,
  allowed_active limit duration (record { window_start = t; count = 1 }) ts pos (omega arith)
      (AllActive-of_Spans from duration t 1 ts h s),
)

allowed_span_active :
    (limit : ℕ) (duration from : ℤ) (ts : List ℤ) (w : RateLimitWindow)
    → 0 < limit
    → w.count ≤ limit
    → Spans from duration ts
    → allowed (answers limit duration ts (some w)) ≤ limit - w.count + limit
unfolding answers step
allowed_span_active limit duration from [] w pos v s = omega arith
allowed_span_active limit duration from (t ∷ ts) w pos v s = ground (
  arith,
  allowed_span_active limit duration from ts w pos v s.2,
  allowed_span_active limit duration from ts (record w { count = w.count + 1 }) pos,
  allowed_opened limit duration from t ts pos s.0 s.2,
)

-- In any interval of one window duration, fewer than twice the limit are let through: a window that
-- was open before the interval has counted its first request already.
pub allowed_span :
    (limit : ℕ) (duration from : ℤ) (ts : List ℤ) (w : Option RateLimitWindow)
    → IsWithin limit w
    → Spans from duration ts
    → allowed (answers limit duration ts w) ≤ 2 * limit - 1
unfolding answers step
allowed_span zero duration from ts w v s = omega (arith, allowed-zero duration ts w)
allowed_span (suc n) duration from [] none v s = omega arith
allowed_span (suc n) duration from (t ∷ ts) none v s =
    ground (arith, allowed_opened (suc n) duration from t ts (omega arith) s.0 s.2)
allowed_span (suc n) duration from ts (some w) v s =
    omega (arith, allowed_span_active (suc n) duration from ts w (omega arith) v.1 s)

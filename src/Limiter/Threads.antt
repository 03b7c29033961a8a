-- ===== src/Limiter/Threads.antt =====
-- Calls of `allow` from several threads. `std::lock_guard` is a mutex that a thread takes before the
-- body of `allow` and gives back after it; the body runs in three steps, between which the others may
-- run. Whatever the schedule, the calls happen one after the other.
pub mod Serial
pub mod Liveness
use mathlib.Core.Path.{subst}
use rate_throttle.Prelude.{
  ℕ, ◌≡◌, refl, sym, ◌≢◌, ite, if_pos, if_neg, Bool, true, false, List, [], ◌∷◌, ◌++◌, Option, none,
  some, ◌==◌, ℕ_discrete, ap, ◌∙◌,
}
use rate_throttle.Prelude.Int.{ℤ}
use rate_throttle.LruCache.{LruCache}
use rate_throttle.Limiter.{RateLimitWindow, RateLimiter, allow, decide}
use rate_throttle.Limiter.Trace.{run, own, times, AllInPool, Fits, own-run}
use rate_throttle.Limiter.Window.{answers}
use rate_throttle.Limiter.Calls.{peek}

-- Where a thread stands in its call of `allow key now`.
pub data Phase (K : Type 0) : Type 0 where
  idle : Phase K
  entered : K → ℤ → Phase K
  looked_up : K → ℤ → Option RateLimitWindow → Phase K
  decided : K → ℤ → Bool → Phase K

abbrev pub update : {K : Type 0} → (ℕ → Phase K) → ℕ → Phase K → ℕ → Phase K
update f t p u = ite (ℕ_discrete u t) p (f u)

module _ {K : Type 0} {dec : Discrete K} (c : LruCache K RateLimitWindow dec) where
  -- `calls` and `results` log the finished calls, the oldest first.
  pub record Threads : Type 0 where
    pub holder : Option ℕ
    pub phase : ℕ → Phase K
    pub limiter : RateLimiter c
    pub calls : List (K × ℤ)
    pub results : List Bool

  pub data Step (s : Threads) : Threads → Type 0 where
    lock :
        (t : ℕ) (key : K) (now : ℤ)
        → s.holder ≡ none
        → s.phase t ≡ idle
        → Step s (record s { holder = some t; phase = update s.phase t (entered key now) })
    -- the early return at a limit of zero
    refuse :
        (t : ℕ) (key : K) (now : ℤ)
        → s.phase t ≡ entered key now
        → (s.limiter.requests_per_window == 0) ≡ true
        → Step s (record s { phase = update s.phase t (decided key now false) })
    look_up :
        (t : ℕ) (key : K) (now : ℤ)
        → s.phase t ≡ entered key now
        → (s.limiter.requests_per_window == 0) ≡ false
        → Step s (record s {
          phase = update s.phase t (looked_up key now (c.get key s.limiter.cache).0);
          limiter = record (s.limiter) { cache = (c.get key s.limiter.cache).1 };
        })
    decision :
        (t : ℕ) (key : K) (now : ℤ) (existing : Option RateLimitWindow)
        → s.phase t ≡ looked_up key now existing
        → Step s (record s {
          phase = update s.phase t (decided key now (decide c key now existing s.limiter).0);
          limiter = (decide c key now existing s.limiter).1;
        })
    unlock :
        (t : ℕ) (key : K) (now : ℤ) (b : Bool)
        → s.phase t ≡ decided key now b
        → Step s (record s {
          holder = none;
          phase = update s.phase t idle;
          calls = s.calls ++ (key, now) ∷ [];
          results = s.results ++ b ∷ [];
        })

  pub data Reach (s : Threads) : Threads → Type 0 where
    here : Reach s s
    next : {u v : Threads} → Reach s u → Step u v → Reach s v

  abbrev pub at_rest : RateLimiter c → Threads
  at_rest r = record { holder = none; phase = λ _. idle; limiter = r; calls = []; results = [] }

  -- How far the holder has come from the limiter `r` that it found.
  abbrev Progress : RateLimiter c → Phase K → RateLimiter c → Type 0
  Progress r idle now_r = ⊥
  Progress r (entered key now) now_r = now_r ≡ r
  Progress r (looked_up key now existing) now_r =
      (decide c key now existing now_r ≡ allow c key now r)
  Progress r (decided key now b) now_r = (b, now_r) ≡ allow c key now r

  -- What the holder of the mutex is doing, or that nobody holds it.
  abbrev Held : RateLimiter c → Option ℕ → (ℕ → Phase K) → RateLimiter c → Type 0
  Held r none phase now_r = (now_r ≡ r) × ((u : ℕ) → phase u ≡ idle)
  Held r (some t) phase now_r = Progress r (phase t) now_r × ((u : ℕ) → u ≢ t → phase u ≡ idle)

  record Inv (start : RateLimiter c) (s : Threads) : Type 0 where
    found : RateLimiter c
    serial : run c s.calls start ≡ (s.results, found)
    held : Held found s.holder s.phase s.limiter

  run-snoc :
      (tr : List (K × ℤ)) (k : K) (t : ℤ) (r : RateLimiter c)
      → run c (tr ++ (k, t) ∷ []) r
        ≡ ((run c tr r).0 ++ (allow c k t (run c tr r).1).0 ∷ [], (allow c k t (run c tr r).1).1)
  unfolding run
  run-snoc [] k t r = refl
  run-snoc ((j, u) ∷ tr) k t r = rw (run-snoc tr k t (allow c j u r).1)

  refuse_lem :
      (key : K) (now : ℤ) (r r' : RateLimiter c)
      → r' ≡ r
      → (r'.requests_per_window == 0) ≡ true
      → (false, r') ≡ allow c key now r
  unfolding allow
  refuse_lem key now r r' e z = subst (λ x. (false, r') ≡ allow c key now x) e (rw (z, allow))

  look_up_lem :
      (key : K) (now : ℤ) (r r' : RateLimiter c)
      → r' ≡ r
      → (r'.requests_per_window == 0) ≡ false
      → decide c key now (c.get key r'.cache).0 (record r' { cache = (c.get key r'.cache).1 })
        ≡ allow c key now r
  unfolding allow
  look_up_lem key now r r' e z =
      subst
        (λ x.
          decide c key now (c.get key r'.cache).0 (record r' { cache = (c.get key r'.cache).1 })
          ≡ allow c key now x)
        e (rw (z, allow))

  -- A thread inside its call is the holder.
  holder_of :
      (r : RateLimiter c) (h : Option ℕ) (phase : ℕ → Phase K) (now_r : RateLimiter c) (t : ℕ)
      → Held r h phase now_r
      → phase t ≢ idle
      → (h ≡ some t) × Progress r (phase t) now_r × ((u : ℕ) → u ≢ t → phase u ≡ idle)
  holder_of r none phase now_r t held busy = absurd (busy (held.1 t))
  holder_of r (some t') phase now_r t held busy = elim (ℕ_discrete t t') [
    | yes e ↦ (ap some (sym e), rw e held.0, rw e held.1)
    | no n ↦ absurd (busy (held.1 t n))
  ]

  update-Held :
      (r : RateLimiter c) (h : Option ℕ) (phase : ℕ → Phase K) (now_r : RateLimiter c) (t : ℕ)
      (p : Phase K)
      → h ≡ some t
      → Progress r p now_r
      → ((u : ℕ) → u ≢ t → phase u ≡ idle)
      → Held r h (update phase t p) now_r
  update-Held r h phase now_r t p e progress others = rw e (
    rw (if_pos (ℕ_discrete t t) refl p (phase t)) progress,
    λ u n. if_neg (ℕ_discrete u t) n p (phase u) ∙ others u n,
  )

  -- A step of the body keeps the invariant if it makes the progress of its phase.
  advance :
      (start : RateLimiter c) (s : Threads) (t : ℕ) (p p' : Phase K) (now_r : RateLimiter c)
      (i : Inv start s)
      → s.phase t ≡ p
      → p ≢ idle
      → (Progress i.found p s.limiter → Progress i.found p' now_r)
      → Inv start (record s { phase = update s.phase t p'; limiter = now_r })
  advance start s t p p' now_r i at busy progress =
      let (e, found, others) =
        holder_of i.found s.holder s.phase s.limiter t i.held (λ q. busy (sym at ∙ q)) in
      record {
        found = i.found;
        serial = i.serial;
        held =
            update-Held i.found s.holder s.phase now_r t p' e
              (progress (subst (λ x. Progress i.found x s.limiter) at found)) others;
      }

  lock-Inv :
      (start : RateLimiter c) (s : Threads) (t : ℕ) (key : K) (now : ℤ)
      → s.holder ≡ none
      → Inv start s
      → Inv start (record s { holder = some t; phase = update s.phase t (entered key now) })
  lock-Inv start s t key now free i =
      let (e, all_idle) = subst (λ h. Held i.found h s.phase s.limiter) free i.held in
      record {
        found = i.found;
        serial = i.serial;
        held =
            update-Held i.found (some t) s.phase s.limiter t (entered key now) refl e
              (λ u _. all_idle u);
      }

  unlock-Inv :
      (start : RateLimiter c) (s : Threads) (t : ℕ) (key : K) (now : ℤ) (b : Bool)
      → s.phase t ≡ decided key now b
      → Inv start s
      → Inv start (record s {
        holder = none;
        phase = update s.phase t idle;
        calls = s.calls ++ (key, now) ∷ [];
        results = s.results ++ b ∷ [];
      })
  unlock-Inv start s t key now b at i =
      let busy : s.phase t ≢ idle = cc in
      let (e, found, others) = holder_of i.found s.holder s.phase s.limiter t i.held busy in
      let result : (b, s.limiter) ≡ allow c key now i.found =
        subst (λ x. Progress i.found x s.limiter) at found in
      record {
        found = s.limiter;
        serial = run-snoc s.calls key now start ∙ cc (i.serial, result);
        held = (
          refl,
          λ u. elim (ℕ_discrete u t) [
            | yes same ↦ if_pos (ℕ_discrete u t) same idle (s.phase u)
            | no other ↦ if_neg (ℕ_discrete u t) other idle (s.phase u) ∙ others u other
          ],
        );
      }

  Step-Inv : (start : RateLimiter c) {s s' : Threads} → Step s s' → Inv start s → Inv start s'
  Step-Inv start {s} (lock t key now free ready) i = lock-Inv start s t key now free i
  Step-Inv start {s} (refuse t key now at z) i =
      advance start s t (entered key now) (decided key now false) s.limiter i at (cc)
        (λ e. refuse_lem key now i.found s.limiter e z)
  Step-Inv start {s} (look_up t key now at z) i =
      advance start s t (entered key now) (looked_up key now (c.get key s.limiter.cache).0)
        (record (s.limiter) { cache = (c.get key s.limiter.cache).1 }) i at (cc)
        (λ e. look_up_lem key now i.found s.limiter e z)
  Step-Inv start {s} (decision t key now existing at) i =
      advance start s t (looked_up key now existing)
        (decided key now (decide c key now existing s.limiter).0)
        (decide c key now existing s.limiter).1 i at (cc) (λ e. e)
  Step-Inv start {s} (unlock t key now b at) i = unlock-Inv start s t key now b at i

  Reach-Inv : (start : RateLimiter c) {s : Threads} → Reach (at_rest start) s → Inv start s
  Reach-Inv start here = record {
    found = start;
    serial = unfold run in refl;
    held = (refl, λ u. refl);
  }
  Reach-Inv start (next r st) = Step-Inv start st (Reach-Inv start r)

-- ===== src/Limiter/Threads/Liveness.antt =====
-- The progress of calls under threads: the holder of the mutex, and the end of a call.
use mathlib.Core.Path.{subst}
use rate_throttle.Prelude.{
  ℕ, ◌<◌, ◌≡◌, refl, sym, ◌≢◌, if_pos, inl, inr, Bool, [], ◌∷◌, ◌++◌, none, some, ◌==◌, ℕ_discrete,
  ◌∙◌, Bool-cases, arith,
}
use rate_throttle.Prelude.Int.{ℤ}
use rate_throttle.LruCache.{LruCache}
use rate_throttle.Limiter.{RateLimitWindow, RateLimiter}
use rate_throttle.Limiter.Threads.{
  Phase, idle, entered, looked_up, decided, update, Threads, Step, lock, refuse, look_up, decision,
  unlock, Reach, at_rest, Held, holder_of, Reach-Inv, Progress,
}

-- how many steps a call has left
abbrev pub steps_left : {K : Type 0} → Phase K → ℕ
steps_left idle = 0
steps_left (entered key now) = 3
steps_left (looked_up key now existing) = 2
steps_left (decided key now b) = 1

update_self : {K : Type 0} (f : ℕ → Phase K) (t : ℕ) (p : Phase K) → update f t p t ≡ p
update_self f t p = if_pos (ℕ_discrete t t) refl p (f t)

module _ {K : Type 0} {dec : Discrete K} (c : LruCache K RateLimitWindow dec) where
  -- A schedule that frees the mutex and finishes a call of the key.
  record Finish (s : Threads c) (key : K) (now : ℤ) : Type 0 where
    pub last : Threads c
    pub reach : Reach c s last
    pub free : last.holder ≡ none
    pub answer : Bool
    pub logged : last.calls ≡ s.calls ++ (key, now) ∷ []
    pub answered : last.results ≡ s.results ++ answer ∷ []

  holder_busy :
      (start : RateLimiter c) (s : Threads c) (t : ℕ)
      → Reach c (at_rest c start) s
      → s.holder ≡ some t
      → s.phase t ≢ idle
  holder_busy start s t reached held e =
      let i = Reach-Inv c start reached in
      let (progress, _) = subst (λ h. Held c i.found h s.phase s.limiter) held i.held in
      subst (λ p. Progress c i.found p s.limiter) e progress

  acts :
      (start : RateLimiter c) (s : Threads c) (t u : ℕ) (p : Phase K)
      → Reach c (at_rest c start) s
      → s.holder ≡ some t
      → s.phase u ≡ p
      → p ≢ idle
      → u ≡ t
  acts start s t u p reached held at busy =
      let i = Reach-Inv c start reached in
      let (e, _, _) =
        holder_of c i.found s.holder s.phase s.limiter u i.held (λ q. busy (sym at ∙ q)) in
      cc (e, held)

  closer :
      (s : Threads c) (t u : ℕ) (p p' : Phase K)
      → u ≡ t
      → s.phase u ≡ p
      → steps_left p' < steps_left p
      → steps_left (update s.phase u p' t) < steps_left (s.phase t)
  closer s t u p p' e at lt =
      subst (λ x. steps_left (update s.phase u p' x) < steps_left (s.phase x)) e
        (rw (update_self s.phase u p', at) lt)

  Step-closer :
      (start : RateLimiter c) (s s' : Threads c) (t : ℕ)
      → Reach c (at_rest c start) s
      → s.holder ≡ some t
      → Step c s s'
      → steps_left (s'.phase t) < steps_left (s.phase t)
  Step-closer start s _ t reached held (lock u key now free ready) =
      absurd (ground (arith, held, free))
  Step-closer start s _ t reached held (refuse u key now at z) =
      closer s t u _ _ (acts start s t u _ reached held at (cc)) at (omega arith)
  Step-closer start s _ t reached held (look_up u key now at z) =
      closer s t u _ _ (acts start s t u _ reached held at (cc)) at (omega arith)
  Step-closer start s _ t reached held (decision u key now existing at) =
      closer s t u _ _ (acts start s t u _ reached held at (cc)) at (omega arith)
  Step-closer start s _ t reached held (unlock u key now b at) =
      closer s t u _ _ (acts start s t u _ reached held at (cc)) at (omega arith)

  can-Step :
      (s : Threads c) (t : ℕ) (p : Phase K)
      → s.phase t ≡ p
      → p ≢ idle
      → (s' : Threads c) × Step c s s'
  can-Step s t idle at busy = absurd (busy refl)
  can-Step s t (entered key now) at busy = elim (Bool-cases (s.limiter.requests_per_window == 0)) [
    | inl z ↦ (_, refuse t key now at z)
    | inr z ↦ (_, look_up t key now at z)
  ]
  can-Step s t (looked_up key now existing) at busy = (_, decision t key now existing at)
  can-Step s t (decided key now b) at busy = (_, unlock t key now b at)

  -- In every state that a schedule reaches from a limiter at rest, if a thread holds the mutex, then a
  -- step is possible, and every step brings this thread closer to the end of its call.
  pub holder_advances :
      (start : RateLimiter c) (s : Threads c) (t : ℕ)
      → Reach c (at_rest c start) s
      → s.holder ≡ some t
      → ((s' : Threads c) × Step c s s')
        × ((s' : Threads c) → Step c s s' → steps_left (s'.phase t) < steps_left (s.phase t))
  holder_advances start s t reached held = (
    can-Step s t (s.phase t) refl (holder_busy start s t reached held),
    λ s' st. Step-closer start s s' t reached held st,
  )

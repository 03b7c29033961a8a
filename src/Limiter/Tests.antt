-- ===== src/Limiter/Tests.antt =====
-- Runs of the limiter, and the theorems at concrete inputs. The keys are byte strings and the cache is
-- the list of LruCache/ListCache.
mod Liveness
use Prim.Native.Nat.{min}
use mathlib.Core.List.{lookup}
use rate_throttle.Prelude.{
  ℕ, ◌*◌, ◌-◌, ◌≤◌, ◌≡◌, refl, ◌≢◌, ◌⊎◌, inl, inr, true, false, List, [], ◌∷◌, none, some, arith,
  length, map, ℕ_discrete,
}
use rate_throttle.Prelude.Int.{ℤ, pos, ◌*ℤ◌, ◌-ℤ◌, ◌+ℤ◌}
use rate_throttle.Assoc.{remove, replace}
use rate_throttle.LruCache.{LruCache}
use rate_throttle.LruCache.ListCache.{list_cache}
use rate_throttle.Limiter.{
  RateLimitWindow, RateLimiter, nanoseconds, has_expired, count_up, construct, open_window, decide,
  allow,
}
use rate_throttle.Limiter.Calls.{peek}
use rate_throttle.Limiter.Sound.{
  IsSound, allow-step, allow-peek_ne, allow-IsSound, construct-IsSound,
}
use rate_throttle.Limiter.Window.{is_over, step, answers, allowed}
use rate_throttle.Limiter.Trace.{AllInPool, run, own, times, Fits, own-run}
use rate_throttle.Limiter.Guarantees.{run-zero, own-span, own-fresh}
use rate_throttle.Limiter.Threads.{
  Phase, Threads, Reach, here, next, lock, look_up, decision, unlock, update, at_rest,
}
use rate_throttle.Limiter.Threads.Serial.{
  mutual_exclusion, serializable, serializable_state, own-threads,
}

Key-discrete : Discrete (List ℕ)
Key-discrete = hlevel ℕ_discrete

abbrev cache : LruCache (List ℕ) RateLimitWindow Key-discrete
cache = list_cache {V = RateLimitWindow} Key-discrete

program : Unit {0}
unfolding lookup remove replace nanoseconds has_expired is_over count_up construct open_window
    decide allow Key-discrete ◌*ℤ◌ ◌-ℤ◌ ◌+ℤ◌ run own times step answers ℕ_discrete
program = tt

abbrev alice : List ℕ
alice = b'a' ∷ []

abbrev bob : List ℕ
bob = b'b' ∷ []

abbrev limiter : RateLimiter cache
limiter = record {
  requests_per_window = 2;
  window_duration = pos 1000;
  cache = record { limit = 2; items = [] };
}

-- two requests pass, the third is refused, and the window expires after its duration
quota :
    (run cache
      ((alice, pos 5)
        ∷ (alice, pos 6)
        ∷ (bob, pos 7)
        ∷ (alice, pos 8)
        ∷ (alice, pos 1_000_000_005)
        ∷ [])
      limiter).0
    ≡ true ∷ true ∷ true ∷ false ∷ true ∷ []
unfolding program
quota = refl

limiter-IsSound : IsSound cache limiter
unfolding lookup
limiter-IsSound = record {
  small = omega arith;
  roomy = omega arith;
  bounded = omega arith;
  distinct = tt;
  within = λ k. tt;
}

-- the limiter behind one request of alice
abbrev used : RateLimiter cache
used = (allow cache alice (pos 5) limiter).1

used-IsSound : IsSound cache used
used-IsSound = allow-IsSound cache alice (pos 5) limiter limiter-IsSound

alice_ne_bob : bob ≢ alice
alice_ne_bob = ground arith

allow-IsSound_example : IsSound cache (allow cache bob (pos 7) used).1
allow-IsSound_example = allow-IsSound cache bob (pos 7) used used-IsSound

allow-step_example :
    ((allow cache alice (pos 6) used).0 ≡ (step 2 (pos 1000) (pos 6) (peek cache used alice)).0)
    × (peek cache (allow cache alice (pos 6) used).1 alice
        ≡ (step 2 (pos 1000) (pos 6) (peek cache used alice)).1)
unfolding program
allow-step_example = allow-step cache alice (pos 6) used used-IsSound

construct-IsSound_example :
    (r : RateLimiter cache) × (construct cache 2 (pos 1000) 2 ≡ some r)
    × IsSound cache r
    × ((k : List ℕ) → peek cache r k ≡ none)
    × (r.requests_per_window ≡ 2)
    × (r.window_duration ≡ pos 1000)
construct-IsSound_example = construct-IsSound cache 2 (pos 1000) 2 (omega arith) (omega arith)

abbrev requests : List (List ℕ × ℤ)
requests = (alice, pos 5) ∷ (bob, pos 6) ∷ (alice, pos 7) ∷ (alice, pos 8) ∷ []

abbrev pool : List (List ℕ)
pool = alice ∷ bob ∷ []

requests-AllInPool : AllInPool pool requests
requests-AllInPool = (inl refl, (inr (inl refl), (inl refl, (inl refl, tt))))

limiter-Fits : Fits cache pool limiter
limiter-Fits = record { sound = limiter-IsSound; tracked = λ q h. absurd h; room = omega arith }

own-run_example :
    own Key-discrete alice requests (run cache requests limiter).0
    ≡ answers 2 (pos 1000) (times Key-discrete alice requests) (peek cache limiter alice)
own-run_example = own-run cache pool requests limiter alice requests-AllInPool limiter-Fits

own-span_example :
    allowed (own Key-discrete alice requests (run cache requests limiter).0) ≤ 2 * 2 - 1
unfolding program
own-span_example =
    own-span cache pool requests limiter alice (pos 0) requests-AllInPool limiter-Fits
      (omega arith, refl, (omega arith, refl, (omega arith, refl, tt)))

own-fresh_example :
    allowed (own Key-discrete alice requests (run cache requests limiter).0)
    ≡ min 2 (length (pos 5 ∷ pos 7 ∷ pos 8 ∷ []))
unfolding program
own-fresh_example =
    own-fresh cache pool requests limiter alice (pos 5) (pos 7 ∷ pos 8 ∷ []) requests-AllInPool
      limiter-Fits refl refl (refl, (refl, tt))

-- Thread 0 finishes a call, and thread 1 is inside one.
abbrev locked : Threads cache
locked = record (at_rest cache limiter) {
  holder = some 0;
  phase = update (λ _. Phase.idle) 0 (Phase.entered alice (pos 5));
}

abbrev looked : Threads cache
looked = record locked {
  phase = update locked.phase 0 (Phase.looked_up alice (pos 5) (cache.get alice limiter.cache).0);
  limiter = record limiter { cache = (cache.get alice limiter.cache).1 };
}

abbrev chosen : Threads cache
chosen = record looked {
  phase =
      update looked.phase 0
        (Phase.decided alice (pos 5) (decide cache alice (pos 5) none looked.limiter).0);
  limiter = (decide cache alice (pos 5) none looked.limiter).1;
}

abbrev finished : Threads cache
finished = record {
  holder = none;
  phase = update chosen.phase 0 Phase.idle;
  limiter = chosen.limiter;
  calls = (alice, pos 5) ∷ [];
  results = true ∷ [];
}

abbrev second : Threads cache
second = record finished {
  holder = some 1;
  phase = update finished.phase 1 (Phase.entered bob (pos 6));
}

finished-Reach : Reach cache (at_rest cache limiter) finished
unfolding program
finished-Reach =
    next {u = chosen}
      (next {u = looked}
        (next {u = locked} (next here (lock 0 alice (pos 5) refl refl))
          (look_up 0 alice (pos 5) refl refl))
        (decision 0 alice (pos 5) none refl))
      (unlock 0 alice (pos 5) true refl)

second-Reach : Reach cache (at_rest cache limiter) second
unfolding program
second-Reach = next finished-Reach (lock 1 bob (pos 6) refl refl)

serializable_example : finished.results ≡ (run cache finished.calls limiter).0
serializable_example = serializable cache limiter finished finished-Reach

second_busy : second.phase 1 ≢ Phase.idle
unfolding program
second_busy = cc

mutual_exclusion_example : ◌≡◌ {A = ℕ} 1 1
mutual_exclusion_example =
    mutual_exclusion cache limiter second 1 1 second-Reach second_busy second_busy

own-threads_example :
    own Key-discrete alice finished.calls finished.results
    ≡ answers 2 (pos 1000) (times Key-discrete alice finished.calls) (peek cache limiter alice)
own-threads_example =
    own-threads cache pool limiter finished alice finished-Reach (inl refl, tt) limiter-Fits

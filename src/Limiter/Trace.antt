-- ===== src/Limiter/Trace.antt =====
-- Sequences of calls for many keys: the answers to one key are those of its automaton on its own
-- requests, as long as the cache has room for the keys in use.
use mathlib.Core.Path.{subst}
use rate_throttle.Prelude.{
  ◌≤◌, ◌<◌, ◌≡◌, refl, sym, ◌≢◌, inl, inr, Bool, List, [], ◌∷◌, arith, length, ite, if_pos, if_neg,
}
use rate_throttle.Prelude.Int.{ℤ}
use rate_throttle.Assoc.{
  remove, HasKey, InPool, length-le-pool, HasKey-remove, cons_remove-IsDistinct,
}
use rate_throttle.LruCache.{LruCache}
use rate_throttle.Limiter.{RateLimitWindow, RateLimiter, allow}
use rate_throttle.Limiter.Calls.{peek, allow-next}
use rate_throttle.Limiter.Entries.{next-lookup_fits, next-HasKey}
use rate_throttle.Limiter.Sound.{IsSound, allow-IsSound, allow-step}
use rate_throttle.Limiter.Window.{answers, answers-cons}

module _ {K : Type 0} (dec : Discrete K) where
  -- the times at which a key makes its requests
  unfoldable pub times : K → List (K × ℤ) → List ℤ
  times k [] = []
  times k ((j, t) ∷ tr) = let rest = times k tr in ite (dec j k) (t ∷ rest) rest

  -- the answers that go to a key
  unfoldable pub own : K → List (K × ℤ) → List Bool → List Bool
  own k [] bs = []
  own k ((j, t) ∷ tr) [] = []
  own k ((j, t) ∷ tr) (b ∷ bs) = let rest = own k tr bs in ite (dec j k) (b ∷ rest) rest

module _ {K : Type 0} (dec : Discrete K) (k j : K) (t : ℤ) (tr : List (K × ℤ)) where
  times-here : j ≡ k → times dec k ((j, t) ∷ tr) ≡ t ∷ times dec k tr
  unfolding times
  times-here e = if_pos (dec j k) e _ _

  times-there : j ≢ k → times dec k ((j, t) ∷ tr) ≡ times dec k tr
  unfolding times
  times-there n = if_neg (dec j k) n _ _

  own-here :
      (b : Bool) (bs : List Bool) → j ≡ k → own dec k ((j, t) ∷ tr) (b ∷ bs) ≡ b ∷ own dec k tr bs
  unfolding own
  own-here b bs e = if_pos (dec j k) e _ _

  own-there :
      (b : Bool) (bs : List Bool) → j ≢ k → own dec k ((j, t) ∷ tr) (b ∷ bs) ≡ own dec k tr bs
  unfolding own
  own-there b bs n = if_neg (dec j k) n _ _

-- Every request comes from the pool.
abbrev pub AllInPool : {K : Type 0} → List K → List (K × ℤ) → Type 0
AllInPool pool [] = Unit
AllInPool pool ((j, t) ∷ tr) = InPool j pool × AllInPool pool tr

module _ {K : Type 0} {dec : Discrete K} (c : LruCache K RateLimitWindow dec) where
  -- the calls of `allow` one after the other
  unfoldable pub run : List (K × ℤ) → RateLimiter c → List Bool × RateLimiter c
  run [] r = ([], r)
  run ((k, t) ∷ tr) r = let (b, r') = allow c k t r in let (bs, r'') = run tr r' in (b ∷ bs, r'')

  -- The keys that the limiter tracks come from the pool, and the cache has room for the pool.
  pub record Fits (pool : List K) (r : RateLimiter c) : Type 0 where
    pub sound : IsSound c r
    pub tracked : (q : K) → HasKey q (c.entries r.cache) → InPool q pool
    pub room : length pool ≤ c.capacity r.cache

  module _ (pool : List K) where
    pub allow-Fits :
        (key : K) (now : ℤ) (r : RateLimiter c)
        → InPool key pool
        → Fits pool r
        → Fits pool (allow c key now r).1
    allow-Fits key now r m f =
        let (_, entries, room, _, _) = allow-next c key now r in
        record {
          sound = allow-IsSound c key now r f.sound;
          tracked = λ q h.
              elim (next-HasKey dec r.requests_per_window r.window_duration (c.capacity r.cache) key
                now (c.entries r.cache) q (subst (HasKey q) entries h)) [
                  | inl e ↦ subst (λ x. InPool x pool) e m
                  | inr old ↦ f.tracked q old
                ];
          room = rw room f.room;
        }

    -- The key and the other entries fit the cache together.
    Fits-with :
        (key : K) (now : ℤ) (r : RateLimiter c)
        → InPool key pool
        → Fits pool r
        → length (remove dec key (c.entries r.cache)) < c.capacity r.cache
    Fits-with key now r m f =
        let es = c.entries r.cache in
        let fresh : RateLimitWindow = record { window_start = now; count = 1 } in
        omega (
          arith,
          length-le-pool dec ((key, fresh) ∷ remove dec key es) pool
              (cons_remove-IsDistinct dec key fresh es f.sound.distinct)
              λ q h. elim h [
                | inl e ↦ subst (λ x. InPool x pool) e m
                | inr old ↦ f.tracked q (HasKey-remove dec key q es old).0
              ],
        )

    -- No other key is touched.
    pub allow-peek-Fits :
        (key : K) (now : ℤ) (r : RateLimiter c) (q : K)
        → InPool key pool
        → Fits pool r
        → q ≢ key
        → peek c (allow c key now r).1 q ≡ peek c r q
    allow-peek-Fits key now r q m f n = rw ((allow-next c key now r).1) (
        next-lookup_fits dec r.requests_per_window r.window_duration (c.capacity r.cache) key now
          (c.entries r.cache) q (Fits-with key now r m f) n)

    run-cons :
        (j : K) (t : ℤ) (tr : List (K × ℤ)) (r : RateLimiter c)
        → (run ((j, t) ∷ tr) r).0 ≡ (allow c j t r).0 ∷ (run tr (allow c j t r).1).0
    unfolding run
    run-cons j t tr r = refl

    -- If the limiter is sound, the keys of the requests and those that it tracks come from a pool,
    -- and the cache has room for the pool, then the answers to a key are those of its automaton,
    -- from the key's window, on the key's own requests, whatever the other keys do in between.
    pub own-run :
        (tr : List (K × ℤ)) (r : RateLimiter c) (k : K)
        → AllInPool pool tr
        → Fits pool r
        → own dec k tr (run tr r).0
          ≡ answers r.requests_per_window r.window_duration (times dec k tr) (peek c r k)
    own-run [] r k a f = unfold own run answers times in refl
    own-run ((j, t) ∷ tr) r k a f =
        let r' = (allow c j t r).1 in
        let (_, _, _, limit, duration) = allow-next c j t r in
        let later = own-run tr r' k a.1 (allow-Fits j t r a.0 f) in
        let (answer, kept) = allow-step c j t r f.sound in
        elim (dec j k) [
          | yes e ↦ cc (
            run-cons j t tr r,
            own-here dec k j t tr (allow c j t r).0 (run tr r').0 e,
            times-here dec k j t tr e,
            answers-cons r.requests_per_window r.window_duration t (times dec k tr) (peek c r k),
            e,
          )
          | no n ↦ cc (
            run-cons j t tr r,
            own-there dec k j t tr (allow c j t r).0 (run tr r').0 n,
            times-there dec k j t tr n,
            allow-peek-Fits j t r k a.0 f (λ e. n (sym e)),
          )
        ]

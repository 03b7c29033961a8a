-- ===== src/Fuzz/Agree.antt =====
-- The harness of fuzz/fuzz_rate_limiter.cpp: its limiter with the steady keys against the shadow map.
use mathlib.Core.Path.{subst}
use rate_throttle.Prelude.{
  ℕ, ◌+◌, ◌%◌, ◌^◌, ◌≤◌, ◌<◌, ◌≡◌, refl, inl, inr, Bool, true, false, [], ◌∷◌, ◌++◌, some, arith,
  length, ltb, ◌==◌, ◌&&◌, Bool-cases, ◌∙◌, get_or, drop,
}
use rate_throttle.Prelude.Int.{ℤ, pos}
use rate_throttle.Assoc.{HasKey, InPool}
use rate_throttle.Text.{Bytes, codes, bytes_dec}
use rate_throttle.Text.Decimal.{to_string}
use mathlib.Core.List.{lookup}
use rate_throttle.LruCache.{LruCache}
use rate_throttle.Limiter.{RateLimitWindow, RateLimiter, allow}
use rate_throttle.Limiter.Calls.{peek, allow-next}
use rate_throttle.Limiter.Sound.{allow-step, construct-IsSound, construct-entries}
use rate_throttle.Limiter.Trace.{Fits, allow-Fits, allow-peek-Fits}
use rate_throttle.Fuzz.{
  Shadow, Harness, returned, same, shadow_allow, steady_key, steady_keys, advance, overflow_call,
  steady_call, fuzz_loop, fuzz_start, fuzz_one_input,
}
use rate_throttle.Fuzz.Shadow.{shadow_window, shadow_allow-step, shadow_allow_ne}
use rate_throttle.Fuzz.Pool.{pool_of, length-pool_of, pool_of-InPool, get_or-steady_keys}

same_self : (b : Bool) → same b b ≡ true
unfolding same
same_self true = refl
same_self false = refl

module _ (c : LruCache Bytes RateLimitWindow bytes_dec) (room requests : ℕ) (duration : ℤ) where
  -- The steady limiter fits its pool and holds, for every key, the window of the shadow map.
  record Mirrors (l : RateLimiter c) (shadow : Shadow) : Type 0 where
    fits : Fits c (pool_of room) l
    windows : (k : Bytes) → peek c l k ≡ shadow_window shadow k
    limit : l.requests_per_window ≡ requests
    span : l.window_duration ≡ duration

  record Agrees (h : Harness c) : Type 0 where
    mirror : Mirrors h.steady_limiter h.shadow
    overflow : h.overflow_limiter.requests_per_window ≡ requests

  module _ (key : Bytes) (now : ℤ) (l : RateLimiter c) (shadow : Shadow)
      (steady : InPool key (pool_of room)) (small : requests < 2 ^ 64) (m : Mirrors l shadow) where
    same_answer : (allow c key now l).0 ≡ (shadow_allow shadow requests duration key now).0
    same_answer = cc (
      (allow-step c key now l m.fits.sound).0,
      (shadow_allow-step shadow requests duration key now small).0,
      m.windows key,
      m.limit,
      m.span,
    )

    Mirrors-after : Mirrors (allow c key now l).1 (shadow_allow shadow requests duration key now).1
    Mirrors-after =
        let (_, _, _, limit, span) = allow-next c key now l in
        record {
          fits = allow-Fits c (pool_of room) key now l steady m.fits;
          windows = λ q. elim (bytes_dec q key) [
            | yes e ↦ cc (
              e,
              (allow-step c key now l m.fits.sound).1,
              (shadow_allow-step shadow requests duration key now small).1,
              m.windows key,
              m.limit,
              m.span,
            )
            | no n ↦ cc (
              allow-peek-Fits c (pool_of room) key now l q steady m.fits n,
              shadow_allow_ne shadow requests duration key now q n,
              m.windows q,
            )
          ];
          limit = limit ∙ m.limit;
          span = span ∙ m.span;
        }

  steady_call-Agrees :
      (key : Bytes) (now : ℤ) (h : Harness c)
      → InPool key (pool_of room)
      → requests < 2 ^ 64
      → Agrees h
      → (h' : Harness c) × (steady_call c requests duration key now h ≡ some h') × Agrees h'
  unfolding steady_call
  steady_call-Agrees key now h steady small a =
      let l = h.steady_limiter in
      let answer = same_answer key now l h.shadow steady small a.mirror in
      (
        record h {
          steady_limiter = (allow c key now l).1;
          shadow = (shadow_allow h.shadow requests duration key now).1;
        },
        rw (answer, same_self) refl,
        record {
          mirror = Mirrors-after key now l h.shadow steady small a.mirror;
          overflow = a.overflow;
        },
      )

  -- With a limit of zero a call is refused.
  refused_of_zero :
      (key : Bytes) (now : ℤ) (l : RateLimiter c)
      → l.requests_per_window ≡ 0
      → (allow c key now l).0 ≡ false
  unfolding allow
  refused_of_zero key now l z = ground arith

  overflow_call-Agrees :
      (now : ℤ) (h : Harness c)
      → Agrees h
      → (h' : Harness c) × (overflow_call c requests now h ≡ some h') × Agrees h'
  unfolding overflow_call
  overflow_call-Agrees now h a =
      let key : Bytes = codes "overflow-" ++ to_string h.overflow_counter in
      let l = h.overflow_limiter in
      let guard : (((requests == 0) && (allow c key now l).0) ≡ false) =
        ground (arith, refused_of_zero key now l, a.overflow) in
      (
        record h {
          overflow_limiter = (allow c key now l).1;
          overflow_counter = (h.overflow_counter + 1) % 2 ^ 64;
        },
        rw guard refl,
        record {
          mirror = a.mirror;
          overflow = (let (_, _, _, limit, _) = allow-next c key now l in limit) ∙ a.overflow;
        },
      )

  fuzz_loop-returned :
      (input : Bytes) (now : ℤ) (h : Harness c)
      → 0 < room
      → room ≤ 8
      → requests < 2 ^ 64
      → Agrees h
      → fuzz_loop c room requests duration (steady_keys room) input now h ≡ returned 0
  unfolding fuzz_loop
  fuzz_loop-returned [] now h low high small a = refl
  fuzz_loop-returned (byte ∷ input) now h low high small a =
      let now' = advance duration byte now in
      elim (Bool-cases (byte % 16 == 0)) [
        | inl e ↦
            let (h', called, a') = overflow_call-Agrees now' h a in
            rw (fuzz_loop, e, called) (fuzz_loop-returned input now' h' low high small a')
        | inr e ↦
            let i = byte % room in
            let below : i < room = omega arith in
            let (h', called, a') =
              steady_call-Agrees (steady_key i) now' h (pool_of-InPool room i below) small a in
            rw (fuzz_loop, e, get_or-steady_keys room i high below, called)
              (fuzz_loop-returned input now' h' low high small a')
      ]

  fuzz_start-returned :
      (input : Bytes) (now : ℤ)
      → 0 < room
      → room ≤ 8
      → requests < 2 ^ 64
      → fuzz_start c room requests duration input now ≡ returned 0
  unfolding fuzz_start lookup
  fuzz_start-returned input now low high small =
      let (l, made, sound, untracked, limit, span) =
        construct-IsSound c requests duration room small low in
      let (empty, size) = construct-entries c requests duration room l low made in
      rw (fuzz_start, made, made)
        (fuzz_loop-returned input now _ low high small (record {
          mirror = record {
            fits = record {
              sound = sound;
              tracked = λ q m. absurd (subst (HasKey q) empty m);
              room = omega (arith, size, length-pool_of room);
            };
            windows = untracked;
            limit = limit;
            span = span;
          };
          overflow = limit;
        }))

-- For every input and every reading of the clock, the harness returns 0: no call of the limiter with
-- the steady keys is answered differently from the shadow map, no overflow key is let through with a
-- limit of zero, and no constructor throws.
pub fuzz_one_input-returned :
    (c : LruCache Bytes RateLimitWindow bytes_dec) (input : Bytes) (now : ℤ)
    → fuzz_one_input c input now ≡ returned 0
unfolding fuzz_one_input
fuzz_one_input-returned c input now = elim (Bool-cases (ltb (length input) 4)) [
  | inl e ↦ rw e refl
  | inr e ↦ rw e (
      fuzz_start-returned c (get_or input 0 0 % 8 + 1) (get_or input 1 0 % 9)
        (pos (get_or input 2 0 % 200 + 1)) (drop 3 input) now (omega arith) (omega arith)
        (omega arith))
]

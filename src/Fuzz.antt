-- ===== src/Fuzz.antt =====
-- fuzz/fuzz_rate_limiter.cpp: the libFuzzer harness, which runs the limiter against a map that mirrors
-- it. The clock's first reading is an argument. The theorems are in the modules below this one.
pub mod Shadow
pub mod Pool
pub mod Agree
mod Tests
use mathlib.Core.List.{lookup}
use rate_throttle.Prelude.{
  ℕ, suc, zero, ◌+◌, ◌%◌, ◌^◌, Bool, true, false, ◌&&◌, not, List, [], ◌∷◌, ◌++◌, Option, none,
  some, ltb, ◌==◌, if◌then◌else◌, length, get_or, drop, replicate, set,
}
use rate_throttle.Prelude.Int.{ℤ, pos, ◌+ℤ◌, ◌-ℤ◌, ltb_ℤ, leb_ℤ}
use rate_throttle.Assoc.{remove, replace}
use rate_throttle.Text.{Bytes, codes, bytes_dec}
use rate_throttle.Text.Decimal.{to_string}
use rate_throttle.LruCache.{LruCache}
use rate_throttle.Limiter.{RateLimitWindow, RateLimiter, nanoseconds, construct, allow}

pub record ShadowWindow : Type 0 where
  pub window_start : ℤ
  pub count : ℕ

-- std::unordered_map<std::string, ShadowWindow>
abbrev pub Shadow : Type 0
Shadow = List (Bytes × ShadowWindow)

-- `shadow[key] = ShadowWindow{now, 1}`
unfoldable pub open_shadow : Bytes → ℤ → Shadow → Bool × Shadow
open_shadow key now shadow =
    (true, (key, record { window_start = now; count = 1 }) ∷ remove bytes_dec key shadow)

-- what follows `shadow.find(key)`
unfoldable pub shadow_found : ℕ → ℤ → Bytes → ℤ → Option ShadowWindow → Shadow → Bool × Shadow
unfolding open_shadow
shadow_found requests duration key now none shadow = open_shadow key now shadow
shadow_found requests duration key now (some w) shadow =
    if leb_ℤ (nanoseconds duration) (now -ℤ w.window_start)
    then open_shadow key now shadow
    else if ltb w.count requests
    then (true, replace bytes_dec key (record w { count = (w.count + 1) % 2 ^ 64 }) shadow)
    else (false, shadow)

unfoldable pub shadow_allow : Shadow → ℕ → ℤ → Bytes → ℤ → Bool × Shadow
unfolding shadow_found
shadow_allow shadow requests duration key now =
    if requests == 0
    then (false, shadow)
    else shadow_found requests duration key now (lookup bytes_dec key shadow) shadow

-- `"steady-" + std::to_string(i)` and the array of eight strings, the first `n` of them set
abbrev pub steady_key : ℕ → Bytes
steady_key i = codes "steady-" ++ to_string i

abbrev pub steady_keys : ℕ → List Bytes
steady_keys zero = replicate 8 []
steady_keys (suc i) = set (steady_keys i) i (steady_key i)

-- the synthetic clock before a call
unfoldable pub advance : ℤ → ℕ → ℤ → ℤ
advance duration byte now =
    if byte % 4 == 0
    then now +ℤ nanoseconds (pos (byte % 5))
    else if byte % 4 == 1
    then now +ℤ nanoseconds duration
    else if byte % 4 == 2
    then (if ltb_ℤ (pos 0) duration then now +ℤ nanoseconds (duration -ℤ pos 1) else now)
    else now

-- bool's ==
unfoldable pub same : Bool → Bool → Bool
same true b = b
same false b = not b

-- How a run ends: with a return value, in std::abort, or in an exception of a constructor.
pub data Outcome : Type 0 where
  returned : ℕ → Outcome
  aborted : Outcome
  thrown : Outcome

module _ (c : LruCache Bytes RateLimitWindow bytes_dec) where
  pub record Harness : Type 0 where
    pub steady_limiter : RateLimiter c
    pub overflow_limiter : RateLimiter c
    pub shadow : Shadow
    pub overflow_counter : ℕ

  -- `none` is std::abort.
  unfoldable pub overflow_call : ℕ → ℤ → Harness → Option Harness
  overflow_call requests now h =
      let key : Bytes = codes "overflow-" ++ to_string h.overflow_counter in
      let (real_result, limiter) = allow c key now h.overflow_limiter in
      if (requests == 0) && real_result
      then none
      else some (record h {
        overflow_limiter = limiter;
        overflow_counter = (h.overflow_counter + 1) % 2 ^ 64;
      })

  unfoldable pub steady_call : ℕ → ℤ → Bytes → ℤ → Harness → Option Harness
  unfolding same shadow_allow
  steady_call requests duration key now h =
      let (real_result, limiter) = allow c key now h.steady_limiter in
      let (shadow_result, shadow) = shadow_allow h.shadow requests duration key now in
      if not (same real_result shadow_result)
      then none
      else some (record h { steady_limiter = limiter; shadow = shadow })

  -- the loop over the bytes behind the header
  unfoldable pub fuzz_loop : ℕ → ℕ → ℤ → List Bytes → Bytes → ℤ → Harness → Outcome
  unfolding overflow_call steady_call advance
  fuzz_loop room requests duration keys [] now h = Outcome.returned 0
  fuzz_loop room requests duration keys (byte ∷ input) now h =
      let now' = advance duration byte now in
      elim (if byte % 16 == 0
        then overflow_call requests now' h
        else steady_call requests duration (get_or keys (byte % room) []) now' h) [
          | none ↦ Outcome.aborted
          | some h' ↦ fuzz_loop room requests duration keys input now' h'
        ]

  unfoldable pub fuzz_start : ℕ → ℕ → ℤ → Bytes → ℤ → Outcome
  unfolding fuzz_loop
  fuzz_start room requests duration input now = elim (construct c requests duration room) [
    | none ↦ Outcome.thrown
    | some steady ↦ elim (construct c requests duration room) [
      | none ↦ Outcome.thrown
      | some overflow ↦ fuzz_loop room requests duration (steady_keys room) input now (record {
        steady_limiter = steady;
        overflow_limiter = overflow;
        shadow = [];
        overflow_counter = 0;
      })
    ]
  ]

  -- `LLVMFuzzerTestOneInput`, from the clock's reading at its start
  unfoldable pub fuzz_one_input : Bytes → ℤ → Outcome
  unfolding fuzz_start
  fuzz_one_input input now =
      if ltb (length input) 4
      then Outcome.returned 0
      else fuzz_start (get_or input 0 0 % 8 + 1) (get_or input 1 0 % 9)
          (pos (get_or input 2 0 % 200 + 1)) (drop 3 input) now

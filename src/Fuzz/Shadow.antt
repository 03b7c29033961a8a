-- ===== src/Fuzz/Shadow.antt =====
-- The shadow map of fuzz/fuzz_rate_limiter.cpp against the automaton of a key.
use mathlib.Core.List.{lookup}
use rate_throttle.Prelude.{
  ℕ, ◌+◌, ◌%◌, ◌^◌, ◌<◌, ◌≡◌, refl, ◌≢◌, inl, inr, Option, none, some, arith, if_pos, if_neg, ◌∷◌,
  Option-cases, ◌∙◌,
}
use rate_throttle.Prelude.Int.{ℤ}
use rate_throttle.Assoc.{remove, lookup-remove_ne, lookup-replace_self, lookup-replace_ne}
use rate_throttle.Text.{Bytes, bytes_dec}
use rate_throttle.Limiter.{RateLimitWindow, has_expired}
use rate_throttle.Limiter.Window.{step, has_expired-is_over}
use rate_throttle.Fuzz.{ShadowWindow, Shadow, open_shadow, shadow_found, shadow_allow}

abbrev pub as_window : Option ShadowWindow → Option RateLimitWindow
as_window none = none
as_window (some w) = some (record { window_start = w.window_start; count = w.count })

-- the window that the map holds for a key
abbrev pub shadow_window : Shadow → Bytes → Option RateLimitWindow
shadow_window shadow key = as_window (lookup bytes_dec key shadow)

shadow_cons :
    (key : Bytes) (w : ShadowWindow) (l : Shadow) → lookup bytes_dec key ((key, w) ∷ l) ≡ some w
unfolding lookup
shadow_cons key w l = if_pos (bytes_dec key key) refl _ _

shadow_cons_ne :
    (key q : Bytes) (w : ShadowWindow) (l : Shadow)
    → q ≢ key
    → lookup bytes_dec q ((key, w) ∷ remove bytes_dec key l) ≡ lookup bytes_dec q l
unfolding lookup
shadow_cons_ne key q w l n = if_neg (bytes_dec q key) n _ _ ∙ lookup-remove_ne bytes_dec key q l n

-- With a limit that fits size_t, the map's answer for a key and the window that it keeps for the key
-- are those of the key's automaton, and the windows of the other keys stay.
pub shadow_allow-step :
    (shadow : Shadow) (limit : ℕ) (duration : ℤ) (key : Bytes) (now : ℤ)
    → limit < 2 ^ 64
    → ((shadow_allow shadow limit duration key now).0
        ≡ (step limit duration now (shadow_window shadow key)).0)
      × (shadow_window (shadow_allow shadow limit duration key now).1 key
          ≡ (step limit duration now (shadow_window shadow key)).1)
unfolding shadow_allow shadow_found open_shadow step has_expired
shadow_allow-step shadow limit duration key now small =
    let fresh : ShadowWindow = record { window_start = now; count = 1 } in
    elim (Option-cases (lookup bytes_dec key shadow)) [
      | inl miss ↦ ground (arith, shadow_cons key fresh (remove bytes_dec key shadow))
      | inr (w, hit) ↦
          let up : ShadowWindow = record w { count = (w.count + 1) % 2 ^ 64 } in
          ground (
            arith,
            shadow_cons key fresh (remove bytes_dec key shadow),
            lookup-replace_self bytes_dec key up w shadow hit,
            has_expired-is_over duration now
                (record { window_start = w.window_start; count = w.count }),
          )
    ]

pub shadow_allow_ne :
    (shadow : Shadow) (limit : ℕ) (duration : ℤ) (key : Bytes) (now : ℤ) (q : Bytes)
    → q ≢ key
    → shadow_window (shadow_allow shadow limit duration key now).1 q ≡ shadow_window shadow q
unfolding shadow_allow shadow_found open_shadow
shadow_allow_ne shadow limit duration key now q n =
    let fresh : ShadowWindow = record { window_start = now; count = 1 } in
    elim (Option-cases (lookup bytes_dec key shadow)) [
      | inl miss ↦ ground (arith, shadow_cons_ne key q fresh shadow n)
      | inr (w, hit) ↦
          let up : ShadowWindow = record w { count = (w.count + 1) % 2 ^ 64 } in
          ground (
            arith,
            shadow_cons_ne key q fresh shadow n,
            lookup-replace_ne bytes_dec key q up shadow n,
          )
    ]

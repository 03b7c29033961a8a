-- ===== src/Google/Names.antt =====
-- regression/google/support/helpers.h, baseName: the method of a benchmark's name.
use rate_throttle.Prelude.{ℕ, ◌≡◌, refl, false, [], ◌∷◌, ◌++◌, ◌==◌, none, some, arith}
use rate_throttle.Text.{Bytes}
use rate_throttle.Google.{before_slash, before_last, base_name}

-- No byte of the text is this one.
abbrev pub Lacks : ℕ → Bytes → Type 0
Lacks x [] = Unit
Lacks x (c ∷ s) = ((c == x) ≡ false) × Lacks x s

slash_lem : (s t : Bytes) → Lacks b'/' s → before_slash (s ++ (b'/' ∷ t)) ≡ s
unfolding before_slash
slash_lem [] t h = refl
slash_lem (c ∷ s) t h = ground (arith, slash_lem s t)

no_slash_lem : (s : Bytes) → Lacks b'/' s → before_slash s ≡ s
unfolding before_slash
no_slash_lem [] h = refl
no_slash_lem (c ∷ s) h = ground (arith, no_slash_lem s)

none_lem : (s : Bytes) → Lacks b'_' s → before_last s ≡ none
unfolding before_last
none_lem [] h = refl
none_lem (c ∷ s) h = ground (arith, none_lem s)

last_lem : (s t : Bytes) → Lacks b'_' t → before_last (s ++ (b'_' ∷ t)) ≡ some s
unfolding before_last
last_lem [] t h = ground (arith, none_lem t)
last_lem (c ∷ s) t h = ground (arith, last_lem s t h)

Lacks-append : (x : ℕ) (s t : Bytes) → Lacks x s → Lacks x t → Lacks x (s ++ t)
Lacks-append x [] t h k = k
Lacks-append x (c ∷ s) t (h, h') k = (h, Lacks-append x s t h' k)

-- If neither the method nor the library has a slash, and the library has no underscore, the base
-- name of a method, a library and arguments is the method, with and without the arguments, and the
-- base name of the library alone is the library.
pub base_name-parts :
    (method library args : Bytes)
    → Lacks b'/' method
    → Lacks b'/' library
    → Lacks b'_' library
    → (base_name ((method ++ (b'_' ∷ library)) ++ (b'/' ∷ args)) ≡ method)
      × (base_name (method ++ (b'_' ∷ library)) ≡ method)
      × (base_name library ≡ library)
unfolding base_name
base_name-parts method library args m l u =
    let whole = Lacks-append b'/' method (b'_' ∷ library) m (refl, l) in
    (
      rw (slash_lem (method ++ (b'_' ∷ library)) args whole, last_lem method library u, base_name)
          refl,
      rw (no_slash_lem (method ++ (b'_' ∷ library)) whole, last_lem method library u, base_name)
          refl,
      rw (no_slash_lem library l, none_lem library u, base_name) (no_slash_lem library l),
    )

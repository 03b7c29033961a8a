-- ===== src/Regression/Results/Methods.antt =====
-- How often a method stands in the list of methods.
use mathlib.Core.Logic.{∥∥₁_elim}
use mathlib.Core.List.{Perm, Permᴰ}
use native.Mathlib.Nat.{ℕ_set}
use Prim.Native.Nat.{min}
use rate_throttle.Prelude.{
  ℕ, ◌+◌, ◌≤◌, ◌≡◌, refl, ◌∙◌, inl, inr, List, [], ◌∷◌, ◌++◌, ite, arith, map, Bool-cases,
  if◌then◌else◌,
}
use rate_throttle.Text.{Bytes, bytes_dec, contains}
use rate_throttle.Regression.Results.{BenchmarkResult, unique_from, unique_operations}

-- the number of times that a text stands in a list
unfoldable pub occurrences : Bytes → List Bytes → ℕ
occurrences x [] = 0
occurrences x (y ∷ ys) = let rest = occurrences x ys in ite (bytes_dec y x) (rest + 1) rest

occurrences-append :
    (x : Bytes) (ys zs : List Bytes)
    → occurrences x (ys ++ zs) ≡ occurrences x ys + occurrences x zs
unfolding occurrences
occurrences-append x [] zs = omega arith
occurrences-append x (y ∷ ys) zs = ground (arith, occurrences-append x ys zs)

occurrences-permᴰ :
    (x : Bytes) {ys zs : List Bytes} → Permᴰ ys zs → occurrences x ys ≡ occurrences x zs
unfolding occurrences
occurrences-permᴰ x Permᴰ.nil = refl
occurrences-permᴰ x (Permᴰ.cons e p) = ground (arith, e, occurrences-permᴰ x p)
occurrences-permᴰ x (Permᴰ.swap e e') = ground (arith, e, e')
occurrences-permᴰ x (Permᴰ.trans p q) = occurrences-permᴰ x p ∙ occurrences-permᴰ x q

pub occurrences-perm :
    (x : Bytes) {ys zs : List Bytes} → Perm ys zs → occurrences x ys ≡ occurrences x zs
occurrences-perm x p = ∥∥₁_elim p (ℕ_set _ _) (occurrences-permᴰ x)

contains-occurrences :
    (ys : List Bytes) (x : Bytes) → min 1 (occurrences x ys) ≡ (if contains ys x then 1 else 0)
unfolding occurrences contains
contains-occurrences [] x = refl
contains-occurrences (y ∷ ys) x = ground (arith, contains-occurrences ys x)

module _ {D : Type 0} where
  unique_from-occurrences :
      (x : Bytes) (seen : List Bytes) (results : List (BenchmarkResult D))
      → occurrences x seen ≤ 1
      → occurrences x (unique_from seen results)
        ≡ min 1 (occurrences x seen + occurrences x (map (λ r. r.operation) results))
  unfolding unique_from occurrences
  unique_from-occurrences x seen [] h = omega arith
  unique_from-occurrences x seen (r ∷ results) h =
      let op = r.operation in
      let found = contains-occurrences seen op in
      elim (Bool-cases (contains seen op)) [
        | inl old ↦ elim (bytes_dec op x) [
          | yes e ↦ ground (arith, unique_from-occurrences x seen results h, old, found, e)
          | no n ↦ ground (arith, unique_from-occurrences x seen results h, old, n)
        ]
        | inr new ↦
            let seen' = seen ++ op ∷ [] in
            let grown = occurrences-append x seen (op ∷ []) in
            elim (bytes_dec op x) [
              | yes e ↦
                  let later =
                    unique_from-occurrences x seen' results
                      (ground (arith, grown, new, found, e)) in
                  ground (arith, later, grown, new, found, e)
              | no n ↦
                  let later =
                    unique_from-occurrences x seen' results (ground (arith, grown, h, n)) in
                  ground (arith, later, grown, new, n)
            ]
      ]

  -- Every operation of the results stands once in the list of methods, and nothing else does.
  pub unique_operations-occurrences :
      (x : Bytes) (results : List (BenchmarkResult D))
      → occurrences x (unique_operations results)
        ≡ min 1 (occurrences x (map (λ r. r.operation) results))
  unfolding unique_operations occurrences
  unique_operations-occurrences x results =
      omega (arith, unique_from-occurrences x [] results (omega arith))

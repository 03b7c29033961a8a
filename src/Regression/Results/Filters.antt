-- ===== src/Regression/Results/Filters.antt =====
-- The list of methods, what the filters keep, and the report of a missing method.
use rate_throttle.Prelude.{
  ℕ, ◌≡◌, refl, sym, ◌↔◌, inl, inr, true, false, List, [], ◌∷◌, ◌++◌, ite, if_neg, if◌then◌else◌,
  arith, map, append-nil, append_assoc, ap, ◌∙◌, Bool-cases,
}
use rate_throttle.Assoc.{InPool}
use rate_throttle.Text.{Bytes, bytes_dec, contains}
use rate_throttle.Regression.Results.{
  BenchmarkResult, get_cns, unique_from, unique_operations, filter_by_operation,
  filter_by_operations,
}

-- The texts of a list that are not among `seen`, each once, in the order of their first occurrence.
drop_seen : Bytes → List Bytes → List Bytes
drop_seen x [] = []
drop_seen x (y ∷ ys) = let rest = drop_seen x ys in ite (bytes_dec y x) rest (y ∷ rest)

pub first_occurrences : List Bytes → List Bytes
unfolding drop_seen
first_occurrences [] = []
first_occurrences (x ∷ xs) = x ∷ drop_seen x (first_occurrences xs)

contains-append :
    (xs ys : List Bytes) (x : Bytes)
    → contains (xs ++ ys) x ≡ (if contains xs x then true else contains ys x)
unfolding contains
contains-append [] ys x = refl
contains-append (z ∷ xs) ys x = ground (arith, contains-append xs ys x)

contains_iff : (xs : List Bytes) (x : Bytes) → (contains xs x ≡ true) ↔ InPool x xs
unfolding contains
contains_iff [] x = (λ h. cc, λ h. absurd h)
contains_iff (y ∷ ys) x = ground (arith, (contains_iff ys x).0, (contains_iff ys x).1)

drop_all : List Bytes → List Bytes → List Bytes
drop_all [] ys = ys
drop_all (x ∷ xs) ys = drop_seen x (drop_all xs ys)

drop_seen_comm :
    (x z : Bytes) (ys : List Bytes) → drop_seen x (drop_seen z ys) ≡ drop_seen z (drop_seen x ys)
unfolding drop_seen
drop_seen_comm x z [] = refl
drop_seen_comm x z (y ∷ ys) = ground (arith, drop_seen_comm x z ys)

drop_seen_idem : (x : Bytes) (ys : List Bytes) → drop_seen x (drop_seen x ys) ≡ drop_seen x ys
unfolding drop_seen
drop_seen_idem x [] = refl
drop_seen_idem x (y ∷ ys) = ground (arith, drop_seen_idem x ys)

drop_all-drop_seen :
    (xs : List Bytes) (x : Bytes) (ys : List Bytes)
    → drop_all xs (drop_seen x ys) ≡ drop_seen x (drop_all xs ys)
unfolding drop_all
drop_all-drop_seen [] x ys = refl
drop_all-drop_seen (z ∷ xs) x ys =
    ap (drop_seen z) (drop_all-drop_seen xs x ys) ∙ drop_seen_comm z x (drop_all xs ys)

drop_all-append :
    (xs : List Bytes) (x : Bytes) (ys : List Bytes)
    → drop_all (xs ++ x ∷ []) ys ≡ drop_all xs (drop_seen x ys)
unfolding drop_all
drop_all-append [] x ys = refl
drop_all-append (z ∷ xs) x ys = ap (drop_seen z) (drop_all-append xs x ys)

drop_all-cons_new :
    (xs : List Bytes) (x : Bytes) (ys : List Bytes)
    → contains xs x ≡ false
    → drop_all xs (x ∷ ys) ≡ x ∷ drop_all xs ys
unfolding contains drop_all drop_seen
drop_all-cons_new [] x ys h = refl
drop_all-cons_new (z ∷ xs) x ys h = ground (arith, drop_all-cons_new xs x ys)

drop_all-cons_seen :
    (xs : List Bytes) (x : Bytes) (ys : List Bytes)
    → contains xs x ≡ true
    → drop_all xs (x ∷ ys) ≡ drop_all xs ys
unfolding contains drop_all drop_seen
drop_all-cons_seen [] x ys h = cc
drop_all-cons_seen (z ∷ xs) x ys h = elim (Bool-cases (contains xs x)) [
  | inl old ↦ ap (drop_seen z) (drop_all-cons_seen xs x ys old)
  | inr new ↦ ground (arith, drop_all-cons_new xs x ys new)
]

drop_seen_absorbed :
    (xs : List Bytes) (x : Bytes) (ys : List Bytes)
    → contains xs x ≡ true
    → drop_seen x (drop_all xs ys) ≡ drop_all xs ys
unfolding contains drop_all
drop_seen_absorbed [] x ys h = cc
drop_seen_absorbed (z ∷ xs) x ys h = elim (bytes_dec z x) [
  | yes e ↦ rw e (drop_seen_idem x (drop_all xs ys))
  | no n ↦
      drop_seen_comm x z (drop_all xs ys)
      ∙ ap (drop_seen z)
          (drop_seen_absorbed xs x ys (rw (if_neg (bytes_dec z x) n true (contains xs x)) at h))
]

drop_all-nil : (xs : List Bytes) → drop_all xs [] ≡ []
unfolding drop_all drop_seen
drop_all-nil [] = refl
drop_all-nil (x ∷ xs) = rw (drop_all-nil xs)

module _ {D : Type 0} where
  operations_of : List (BenchmarkResult D) → List Bytes
  operations_of = map (λ r. r.operation)

  unique_from-eq :
      (seen : List Bytes) (results : List (BenchmarkResult D))
      → unique_from seen results ≡ seen ++ drop_all seen (first_occurrences (operations_of results))
  unfolding unique_from operations_of first_occurrences
  unique_from-eq seen [] = sym (ap (◌++◌ seen) (drop_all-nil seen) ∙ append-nil seen)
  unique_from-eq seen (r ∷ results) =
      let op = r.operation in
      let later = first_occurrences (operations_of results) in
      elim (Bool-cases (contains seen op)) [
        | inl old ↦ rw old (
            unique_from-eq seen results
            ∙ ap (◌++◌ seen) (
                sym (
                  drop_all-cons_seen seen op (drop_seen op later) old
                  ∙ drop_all-drop_seen seen op later
                  ∙ drop_seen_absorbed seen op later old)))
        | inr new ↦ rw new (
            unique_from-eq (seen ++ op ∷ []) results
            ∙ append_assoc seen (op ∷ []) _
            ∙ ap (◌++◌ seen) (
                ap (◌∷◌ op) (drop_all-append seen op later)
                ∙ sym (drop_all-cons_new seen op (drop_seen op later) new)))
      ]

  -- The list of methods holds the operations of the results, each once, in the order of their first
  -- occurrence.
  pub unique_operations-eq :
      (results : List (BenchmarkResult D))
      → unique_operations results ≡ first_occurrences (map (λ r. r.operation) results)
  unfolding unique_operations operations_of drop_all
  unique_operations-eq results = unique_from-eq [] results

  -- The lookup of a method and iteration count gives the same value in the results filtered for this
  -- method as in all results.
  pub get_cns-filter :
      (zero : D) (results : List (BenchmarkResult D)) (op : Bytes) (iter : ℕ)
      → get_cns zero (filter_by_operation results op) op iter ≡ get_cns zero results op iter
  unfolding get_cns filter_by_operation
  get_cns-filter zero [] op iter = refl
  get_cns-filter zero (r ∷ results) op iter = ground (arith, get_cns-filter zero results op iter)

  -- To filter by a group of one method is to filter by the method.
  pub filter_by_singleton :
      (results : List (BenchmarkResult D)) (op : Bytes)
      → filter_by_operations results (op ∷ []) ≡ filter_by_operation results op
  unfolding filter_by_operations filter_by_operation contains
  filter_by_singleton [] op = refl
  filter_by_singleton (r ∷ results) op = ground (arith, filter_by_singleton results op)

-- ===== src/LruCache/ListCache.antt =====
-- A list with a capacity meets the laws of the cache interface.
use mathlib.Core.List.{lookup}
use rate_throttle.Prelude.{ℕ, zero, suc, List, [], ◌∷◌, Option, none, some, take, refl, arith}
use rate_throttle.Assoc.{remove, replace}
use rate_throttle.LruCache.{LruCache, promoted}

pub record Slots (K V : Type 0) : Type 0 where
  pub limit : ℕ
  pub items : List (K × V)

abbrev pub slots_make : {K V : Type 0} → ℕ → Option (Slots K V)
slots_make zero = none
slots_make (suc n) = some (record { limit = suc n; items = [] })

abbrev pub list_cache : {K V : Type 0} (dec : Discrete K) → LruCache K V dec
list_cache {K} {V} dec = record {
  State = Slots K V;
  make = slots_make;
  get = λ k s.
      (lookup dec k s.items, record s { items = promoted dec k (lookup dec k s.items) s.items });
  put = λ k v s. record s { items = take s.limit ((k, v) ∷ remove dec k s.items) };
  assign = λ k v s. record s { items = replace dec k v s.items };
  capacity = λ s. s.limit;
  entries = λ s. s.items;
  make-zero = refl;
  make-positive = elim [
    | zero ↦ λ h. absurd (omega arith)
    | suc n ↦ λ h. (record { limit = suc n; items = [] }, refl, refl, refl)
  ];
  get-value = λ k s. refl;
  get-entries = λ k s. refl;
  put-entries = λ k v s. refl;
  assign-entries = λ k v s. refl;
  get-capacity = λ k s. refl;
  put-capacity = λ k v s. refl;
  assign-capacity = λ k v s. refl;
}

-- ===== src/Bench/Tables/Steps.antt =====
-- What each operation on the table prints keeps the lines in order.
use mathlib.Core.Path.{subst}
use rate_throttle.Prelude.{
  ℕ, ◌≡◌, refl, sym, ap, Bool, true, false, not, ◌&&◌, List, [], ◌∷◌, if◌then◌else◌, Option, none,
  some, arith, Bool-cases, inl, inr, if_pos, if_neg,
}
use rate_throttle.Prelude.Int.{ℤ}
use rate_throttle.Text.{Bytes, null, bytes_dec}
use rate_throttle.Regression.Double.{Double}
use rate_throttle.Regression.Report.{newline, glyph}
use rate_throttle.Bench.{
  Bench, Kind, emit, transcribe, begin_suite, open_header, end_either, close_table, switch_kind,
  ensure_table, separate, border, layout,
}
use rate_throttle.Bench.Rows.{
  print_solo_row, print_pair_row, record_result, solo_tier, pair_tier, Call, run_call, run_calls,
  print_one_suite,
}
use rate_throttle.Bench.Tables.{
  InOrder, add-InOrder, separator_lem, separator_at, title_lem, row_lem, bottom_lem,
}

module _ (double : Double) where
  -- The table that the globals say is open.
  abbrev standing : Bench double → Option Bool
  standing b = if b.table_open then some b.table_is_solo else none

  -- The lines are in order, and the globals say which table is open.
  abbrev Tidy : Bench double → Type 0
  Tidy b = InOrder (standing b) b.lines

  open-InOrder :
      (s : Bool) (b : Bench double)
      → InOrder none b.lines
      → InOrder (some s) (open_header double s b).lines
  unfolding open_header transcribe emit
  open-InOrder s b h =
      separator_lem s _ _ (title_lem s _ _ (add-InOrder none (some s) b.lines _ h refl))

  standing_open :
      (b : Bench double) → b.table_open ≡ true → Tidy b → InOrder (some b.table_is_solo) b.lines
  standing_open b e h = subst (λ o. InOrder (if o then some b.table_is_solo else none) b.lines) e h

  standing_shut : (b : Bench double) → b.table_open ≡ false → Tidy b → InOrder none b.lines
  standing_shut b e h = subst (λ o. InOrder (if o then some b.table_is_solo else none) b.lines) e h

  close_open :
      (b : Bench double)
      → b.table_open ≡ true
      → (close_table double b).lines ≡ (end_either double b.table_is_solo b).lines
  unfolding close_table
  close_open b e =
      ap
        (λ o.
          (if not o
            then b
            else record (end_either double b.table_is_solo b) { table_open = false }).lines)
        e

  close_shut_lines :
      (b : Bench double) → b.table_open ≡ false → (close_table double b).lines ≡ b.lines
  unfolding close_table
  close_shut_lines b e =
      ap
        (λ o.
          (if not o
            then b
            else record (end_either double b.table_is_solo b) { table_open = false }).lines)
        e

  close-InOrder : (b : Bench double) → Tidy b → InOrder none (close_table double b).lines
  unfolding end_either emit
  close-InOrder b h = elim (Bool-cases b.table_open) [
    | inl e ↦
        subst (InOrder none) (sym (close_open b e))
          (bottom_lem b.table_is_solo _ b.lines (standing_open b e h))
    | inr e ↦ subst (InOrder none) (sym (close_shut_lines b e)) (standing_shut b e h)
  ]

  close_shut : (b : Bench double) → (close_table double b).table_open ≡ false
  unfolding close_table
  close_shut b = ground arith

  -- A table of the kind is open.
  abbrev Ready : Bool → Bench double → Type 0
  Ready s b = (b.table_open ≡ true) × (b.table_is_solo ≡ s) × InOrder (some s) b.lines

  Tidy-shut : (b : Bench double) → b.table_open ≡ false → InOrder none b.lines → Tidy b
  Tidy-shut b e h =
      subst (λ o. InOrder (if o then some b.table_is_solo else none) b.lines) (sym e) h

  Ready-Tidy : (s : Bool) (b : Bench double) → Ready s b → Tidy b
  Ready-Tidy s b (e, k, h) =
      subst (λ o. InOrder (if o then some b.table_is_solo else none) b.lines) (sym e)
        (subst (λ t. InOrder (some t) b.lines) (sym k) h)

  -- Behind the switch the open table, if there is one, is of the kind.
  abbrev Switched : Bool → Bench double → Type 0
  Switched s b = Tidy b × ((b.table_open ≡ true) → b.table_is_solo ≡ s)

  switch-Switched : (s : Bool) (b : Bench double) → Tidy b → Switched s (switch_kind double s b)
  unfolding switch_kind emit
  switch-Switched s b h =
      elim (Bool-cases (b.table_open && not (if s then b.table_is_solo else not b.table_is_solo))) [
        | inl e ↦ rw (e) (
          Tidy-shut (emit double Kind.outside false (newline ∷ []) (close_table double b))
              (close_shut b)
              (add-InOrder none none (close_table double b).lines _ (close-InOrder b h) refl),
          λ o. ground (arith, close_shut b, o),
        )
        | inr e ↦ rw (e) (h, λ o. ground (arith, e, o))
      ]

  ensure-Ready : (s : Bool) (b : Bench double) → Tidy b → Ready s (ensure_table double s b)
  unfolding ensure_table
  ensure-Ready s b h =
      let b' = switch_kind double s b in
      let (tidy, kind) = switch-Switched s b h in
      elim (Bool-cases b'.table_open) [
        | inl e ↦
            rw (e)
              (e, kind e, subst (λ t. InOrder (some t) b'.lines) (kind e) (standing_open b' e tidy))
        | inr e ↦ rw (e) (refl, refl, open-InOrder s b' (standing_shut b' e tidy))
      ]

  abbrev drawn : Bench double → Bench double
  drawn b =
      emit double Kind.separator b.table_is_solo
        (border (glyph 0x9C) (glyph 0xBC) (glyph 0xA4) (layout b.table_is_solo)) b

  separate-Ready :
      (s : Bool) (name : Bytes) (b : Bench double) → Ready s b → Ready s (separate double name b)
  unfolding separate emit
  separate-Ready s name b (e, k, h) = elim (Bool-cases (null b.last_group)) [
    | inl n ↦ rw (n) (e, k, h)
    | inr n ↦ elim (bytes_dec b.last_group name) [
      | yes q ↦ rw (n, if_pos (bytes_dec b.last_group name) q b (drawn b)) (e, k, h)
      | no q ↦
          rw (n, if_neg (bytes_dec b.last_group name) q b (drawn b))
            (e, k, separator_at s b.table_is_solo _ b.lines k h)
    ]
  ]

  solo_row-Tidy :
      (name iteration : Bytes) (ns : ℤ) (b : Bench double)
      → Tidy b
      → Tidy (print_solo_row double name iteration ns b)
  unfolding print_solo_row transcribe emit
  solo_row-Tidy name iteration ns b h =
      let (e, k, o) =
        separate-Ready true name (ensure_table double true b) (ensure-Ready true b h) in
      Ready-Tidy true (print_solo_row double name iteration ns b) (e, k, row_lem true _ _ o)

  pair_row-Tidy :
      (name iteration : Bytes) (c s : ℤ) (b : Bench double)
      → Tidy b
      → Tidy (print_pair_row double name iteration c s b)
  unfolding print_pair_row transcribe emit
  pair_row-Tidy name iteration c s b h =
      let (e, k, o) =
        separate-Ready false name (ensure_table double false b) (ensure-Ready false b h) in
      Ready-Tidy false (print_pair_row double name iteration c s b) (e, k, row_lem false _ _ o)

  solo_tier-Tidy :
      (name : Bytes) (iteration : ℕ) (label : Bytes) (ns : ℤ) (b : Bench double)
      → Tidy b
      → Tidy (solo_tier double name iteration label ns b)
  unfolding solo_tier record_result
  solo_tier-Tidy name iteration label ns b h =
      solo_row-Tidy name label ns (record_result double name iteration ns b) h

  pair_tier-Tidy :
      (name : Bytes) (iteration : ℕ) (label : Bytes) (p : ℤ × ℤ) (b : Bench double)
      → Tidy b
      → Tidy (pair_tier double name iteration label p b)
  unfolding pair_tier record_result
  pair_tier-Tidy name iteration label (c, s) b h =
      pair_row-Tidy name label c s (record_result double name iteration c b) h

  call-Tidy : (call : Call) (b : Bench double) → Tidy b → Tidy (run_call double call b)
  unfolding run_call
  call-Tidy (Call.bench name p q r) b h =
      pair_tier-Tidy name _ _ r _ (pair_tier-Tidy name _ _ q _ (pair_tier-Tidy name _ _ p b h))
  call-Tidy (Call.bench_solo name p q r) b h =
      solo_tier-Tidy name _ _ r _ (solo_tier-Tidy name _ _ q _ (solo_tier-Tidy name _ _ p b h))
  call-Tidy (Call.bench_custom name p q r) b h =
      pair_tier-Tidy name _ _ r _ (pair_tier-Tidy name _ _ q _ (pair_tier-Tidy name _ _ p b h))
  call-Tidy (Call.bench_solo_custom name p q r) b h =
      solo_tier-Tidy name _ _ r _ (solo_tier-Tidy name _ _ q _ (solo_tier-Tidy name _ _ p b h))

  calls-Tidy : (calls : List Call) (b : Bench double) → Tidy b → Tidy (run_calls double calls b)
  unfolding run_calls
  calls-Tidy [] b h = h
  calls-Tidy (call ∷ calls) b h = calls-Tidy calls (run_call double call b) (call-Tidy call b h)

  pub suite-InOrder :
      (name : Bytes) (calls : List Call) (b : Bench double)
      → InOrder none b.lines
      → InOrder none (print_one_suite double name calls b).lines
  unfolding print_one_suite begin_suite emit
  suite-InOrder name calls b h =
      close-InOrder _ (calls-Tidy calls _ (add-InOrder none none b.lines _ h refl))

-- ===== src/Bench/Tables.antt =====
-- The tables of the benchmark tool: every suite prints a sequence of whole tables, and each row and
-- each separator stands in an open table of its own kind.
pub mod Steps
use mathlib.Core.Path.{subst}
use rate_throttle.Prelude.{
  ℕ, ◌≡◌, refl, sym, ◌∙◌, ap, Bool, true, false, not, ◌&&◌, List, [], ◌∷◌, ◌++◌, if◌then◌else◌,
  Option, none, some, arith, Bool-cases, inl, inr, if_pos, if_neg,
}
use rate_throttle.Prelude.Int.{ℤ}
use rate_throttle.Text.{Bytes, null, bytes_dec}
use rate_throttle.Regression.Double.{Double}
use rate_throttle.Regression.Report.{newline, Piece, glyph}
use rate_throttle.Bench.{
  Bench, Kind, Line, emit, transcribe, begin_suite, open_header, end_either, close_table,
  switch_kind, ensure_table, separate, border, layout,
}
use rate_throttle.Bench.Rows.{
  print_solo_row, print_pair_row, record_result, solo_tier, pair_tier, Call, run_call, run_calls,
  print_one_suite,
}

abbrev same : Bool → Bool → Bool
same a b = if a then b else not b

-- Which table is open behind a line, from which was open before it; `none` within is a line out of
-- place.
abbrev pub advance : Option Bool → Line → Option (Option Bool)
advance none l = elim (l.kind) [
  | Kind.top ↦ some (some l.solo)
  | Kind.outside ↦ some none
  | _ ↦ none
]
advance (some s) l = elim (l.kind) [
  | Kind.title ↦ if same s l.solo then some (some s) else none
  | Kind.separator ↦ if same s l.solo then some (some s) else none
  | Kind.row ↦ if same s l.solo then some (some s) else none
  | Kind.bottom ↦ if same s l.solo then some none else none
  | _ ↦ none
]

abbrev then_follow :
    (Option Bool → Option (Option Bool)) → Option (Option Bool) → Option (Option Bool)
then_follow f none = none
then_follow f (some st) = f st

unfoldable pub follow : List Line → Option Bool → Option (Option Bool)
follow [] st = some st
follow (l ∷ ls) st = then_follow (follow ls) (advance st l)

then_some : (o : Option (Option Bool)) → then_follow (λ s. some s) o ≡ o
then_some none = refl
then_some (some s) = refl

then_step :
    (f g : Option Bool → Option (Option Bool)) (h : Option Bool → Option (Option Bool))
    (o : Option (Option Bool))
    → ((s : Option Bool) → f s ≡ then_follow g (h s))
    → then_follow f o ≡ then_follow g (then_follow h o)
then_step f g h none e = refl
then_step f g h (some s) e = e s

follow-append :
    (ls : List Line) (l : Line) (st : Option Bool)
    → follow (ls ++ l ∷ []) st ≡ then_follow (λ s. advance s l) (follow ls st)
unfolding follow
follow-append [] l st = then_some (advance st l)
follow-append (k ∷ ls) l st =
    then_step (follow (ls ++ l ∷ [])) (λ s. advance s l) (follow ls) (advance st k)
      (follow-append ls l)

-- The lines are in order, and this table is open behind them.
abbrev pub InOrder : Option Bool → List Line → Type 0
InOrder st ls = follow ls none ≡ some st

pub add-InOrder :
    (st st' : Option Bool) (ls : List Line) (l : Line)
    → InOrder st ls
    → advance st l ≡ some st'
    → InOrder st' (ls ++ l ∷ [])
add-InOrder st st' ls l h e = follow-append ls l none ∙ ap (then_follow (λ s. advance s l)) h ∙ e

abbrev line : Kind → Bool → List Piece → Line
line kind solo pieces = record { kind = kind; solo = solo; pieces = pieces }

-- The lines of an open table keep it open, and its bottom closes it.
separator_lem :
    (s : Bool) (ps : List Piece) (ls : List Line)
    → InOrder (some s) ls
    → InOrder (some s) (ls ++ line Kind.separator s ps ∷ [])
separator_lem true ps ls h = add-InOrder (some true) (some true) ls _ h refl
separator_lem false ps ls h = add-InOrder (some false) (some false) ls _ h refl

separator_at :
    (s t : Bool) (ps : List Piece) (ls : List Line)
    → t ≡ s
    → InOrder (some s) ls
    → InOrder (some s) (ls ++ line Kind.separator t ps ∷ [])
separator_at s t ps ls e h =
    subst (λ u. InOrder (some u) (ls ++ line Kind.separator t ps ∷ [])) e
      (separator_lem t ps ls (subst (λ u. InOrder (some u) ls) (sym e) h))

title_lem :
    (s : Bool) (ps : List Piece) (ls : List Line)
    → InOrder (some s) ls
    → InOrder (some s) (ls ++ line Kind.title s ps ∷ [])
title_lem true ps ls h = add-InOrder (some true) (some true) ls _ h refl
title_lem false ps ls h = add-InOrder (some false) (some false) ls _ h refl

row_lem :
    (s : Bool) (ps : List Piece) (ls : List Line)
    → InOrder (some s) ls
    → InOrder (some s) (ls ++ line Kind.row s ps ∷ [])
row_lem true ps ls h = add-InOrder (some true) (some true) ls _ h refl
row_lem false ps ls h = add-InOrder (some false) (some false) ls _ h refl

bottom_lem :
    (s : Bool) (ps : List Piece) (ls : List Line)
    → InOrder (some s) ls
    → InOrder none (ls ++ line Kind.bottom s ps ∷ [])
bottom_lem true ps ls h = add-InOrder (some true) none ls _ h refl
bottom_lem false ps ls h = add-InOrder (some false) none ls _ h refl

-- ===== src/Bench.antt =====
-- benchmarks/custom/support/helpers.h and macros.h: the benchmark tool's state, and the table that its
-- rows open, switch and close. The globals are the fields of `Bench`; a printed line carries what it
-- is in the table and whether it belongs to a solo table. Times are signed nanoseconds.
pub mod Rows
pub mod Runs
pub mod Tables
pub mod Tallies
pub mod Mains
mod Tests
use rate_throttle.Prelude.{
  ℕ, zero, suc, ◌+◌, ◌-◌, Bool, true, false, not, ◌&&◌, ◌||◌, List, [], ◌∷◌, ◌++◌, if◌then◌else◌,
  ite, ◌==◌,
}
use rate_throttle.Prelude.Int.{ℤ, pos, ltb_ℤ, leb_ℤ}
use rate_throttle.Text.{Bytes, codes, bytes_dec, null, to_upper}
use rate_throttle.Regression.Double.{Double}
use rate_throttle.Regression.Results.{BenchmarkResult}
use rate_throttle.Regression.Table.{
  h_line, v_line, light_shade, full_block, repeat, pad_cell, truncate_cell,
}
use rate_throttle.Regression.Report.{
  Piece, style, text, escape, reset, bold, green, red, cyan, blue, magenta, newline, test_w, iter_w,
  val_w, delta_w, bar_w, dur_w, glyph, border_cells, clamp_bar, show_ℤ,
}
use rate_throttle.Regression.Report.Rows.{delta_sign, dash_arrow, up_arrow, down_arrow}

-- GRAY of this tool
abbrev pub dim_gray : Piece
dim_gray = escape (codes "90m")

abbrev pub solo_val_w : ℕ
solo_val_w = 20

-- the loop of prettify
unfoldable pub title_loop : Bool → Bytes → Bytes
title_loop first_letter [] = []
title_loop first_letter (c ∷ s) =
    let rest = title_loop false s in
    let rest' = title_loop true s in
    if first_letter
    then to_upper c ∷ rest
    else if c == b'_' || c == b' '
    then b' ' ∷ rest'
    else c ∷ rest

unfoldable pub title_case : Bytes → Bytes
unfolding title_loop
title_case s = title_loop true s

-- the widths of the two layouts
unfoldable pub layout : Bool → List ℕ
layout solo =
    if solo
    then test_w ∷ iter_w ∷ solo_val_w ∷ []
    else test_w ∷ iter_w ∷ val_w ∷ val_w ∷ delta_w ∷ []

unfoldable pub border : Bytes → Bytes → Bytes → List ℕ → List Piece
border left mid right widths =
    dim_gray ∷ text left ∷ border_cells true mid widths ++ text right ∷ reset ∷ newline ∷ []

abbrev pub edge : List Piece
edge = dim_gray ∷ text v_line ∷ reset ∷ []

pub data Kind : Type 0 where
  top : Kind
  title : Kind
  separator : Kind
  row : Kind
  bottom : Kind
  outside : Kind

pub record Line : Type 0 where
  pub kind : Kind
  pub solo : Bool
  pub pieces : List Piece

pub record ResultTally : Type 0 where
  pub custom_wins : ℕ
  pub standard_wins : ℕ
  pub ties : ℕ

unfoldable pub total : ResultTally → ℕ
total t = t.custom_wins + t.standard_wins + t.ties

module _ (double : Double) where
  open double use {D, of_ℕ, quotient, sub, mul, div, lt, lround, fixed, fixed_showpos}

  pub record Bench : Type 0 where
    pub custom : Bytes
    pub standard : Bytes
    pub suite_name : Bytes
    pub last_group : Bytes
    pub table_open : Bool
    pub table_is_solo : Bool
    pub transcript : Bytes
    pub result_tally : ResultTally
    pub recorded : List (BenchmarkResult D)
    pub lines : List Line

  unfoldable pub emit : Kind → Bool → List Piece → Bench → Bench
  emit kind solo pieces b = record b {
    lines = b.lines ++ record { kind = kind; solo = solo; pieces = pieces } ∷ [];
  }

  unfoldable pub transcribe : Bytes → Bench → Bench
  transcribe s b = record b { transcript = b.transcript ++ s }

  unfoldable pub begin_suite : Bytes → Bench → Bench
  begin_suite name b = record b { suite_name = name; table_open = false; last_group = [] }

  -- the widest unit in which the duration is at least one
  unfoldable pub show_duration : ℤ → Bytes
  show_duration ns =
      if ltb_ℤ ns (pos 1_000)
      then show_ℤ ns ++ codes " ns"
      else if ltb_ℤ ns (pos 1_000_000)
      then fixed 2 (quotient ns 1_000) ++ codes " us"
      else if ltb_ℤ ns (pos 1_000_000_000)
      then fixed 2 (quotient ns 1_000_000) ++ codes " ms"
      else fixed 2 (quotient ns 1_000_000_000) ++ codes " s"

  unfoldable pub duration_bar : ℤ → ℤ → Bytes
  duration_bar ns max_ns =
      if leb_ℤ max_ns (pos 0)
      then repeat light_shade bar_w
      else (let filled =
            clamp_bar (lround (mul (div (quotient ns 1) (quotient max_ns 1)) (of_ℕ bar_w))) in
          repeat full_block filled ++ repeat light_shade (bar_w - filled))

  -- the header line of either table, and its markdown
  unfoldable pub title_line : Bool → Bench → List Piece
  title_line solo b =
      let name = pad_cell (b' ' ∷ truncate_cell (title_case b.suite_name) (test_w - 1)) test_w in
      let start =
        edge
        ++ bold ∷ cyan ∷ text name ∷ reset ∷ edge
        ++ bold ∷ cyan ∷ text (pad_cell (codes " Iteration") iter_w) ∷ reset ∷ edge in
      if solo
      then start
        ++ bold ∷ blue ∷ text (pad_cell (b' ' ∷ b.custom) solo_val_w) ∷ reset ∷ edge
        ++ newline ∷ []
      else start
        ++ bold ∷ blue ∷ text (pad_cell (b' ' ∷ b.custom) val_w) ∷ reset ∷ edge
        ++ bold ∷ magenta ∷ text (pad_cell (b' ' ∷ b.standard) val_w) ∷ reset ∷ edge
        ++ bold ∷ cyan ∷ text (pad_cell (b' ' ∷ delta_sign) delta_w) ∷ reset ∷ edge
        ++ newline ∷ []

  unfoldable pub title_markdown : Bool → Bench → Bytes
  title_markdown solo b =
      let start =
        0x0A ∷ codes "## "
        ++ title_case b.suite_name
        ++ 0x0A ∷ 0x0A ∷ codes "| Test | Iteration | "
        ++ b.custom in
      if solo
      then start ++ codes " |" ++ 0x0A ∷ codes "|---|---|---|" ++ 0x0A ∷ []
      else start
        ++ codes " | "
        ++ b.standard
        ++ codes " | "
        ++ delta_sign
        ++ codes " |"
        ++ 0x0A ∷ codes "|---|---|---|---|---|"
        ++ 0x0A ∷ []

  -- setSoloHeader and setHeader, at the suite's name
  unfoldable pub open_header : Bool → Bench → Bench
  unfolding emit transcribe layout border title_line title_markdown title_case
  open_header solo b = transcribe (title_markdown solo b) (
      emit Kind.separator solo (border (glyph 0x9C) (glyph 0xBC) (glyph 0xA4) (layout solo)) (
        emit Kind.title solo (title_line solo b)
          (emit Kind.top solo (border (glyph 0x8C) (glyph 0xAC) (glyph 0x90) (layout solo)) b)))

  -- endSoloTable and endTable
  unfoldable pub end_either : Bool → Bench → Bench
  unfolding emit layout border
  end_either solo b =
      emit Kind.bottom solo (border (glyph 0x94) (glyph 0xB4) (glyph 0x98) (layout solo)) b

  unfoldable pub close_table : Bench → Bench
  unfolding end_either
  close_table b =
      if not b.table_open then b else record (end_either b.table_is_solo b) { table_open = false }

  unfoldable pub switch_kind : Bool → Bench → Bench
  unfolding emit close_table
  switch_kind solo b =
      if b.table_open && not (if solo then b.table_is_solo else not b.table_is_solo)
      then emit Kind.outside false (newline ∷ []) (close_table b)
      else b

  unfoldable pub ensure_table : Bool → Bench → Bench
  unfolding switch_kind open_header
  ensure_table solo b =
      let b' = switch_kind solo b in
      if b'.table_open
      then b'
      else record (open_header solo b') { table_open = true; table_is_solo = solo; last_group = [] }

  unfoldable pub separate : Bytes → Bench → Bench
  unfolding emit layout border
  separate name b =
      let drawn =
        emit Kind.separator b.table_is_solo
          (border (glyph 0x9C) (glyph 0xBC) (glyph 0xA4) (layout b.table_is_solo)) b in
      let b' = if null b.last_group then b else ite (bytes_dec b.last_group name) b drawn in
      record b' { last_group = name }

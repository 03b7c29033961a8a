-- ===== src/Bench/Rows.antt =====
-- benchmarks/custom/support/helpers.h, macros.h and framework.h: the rows of the two tables, the macros
-- that print them, a whole suite, and the summary of a run.
use rate_throttle.Prelude.{
  ℕ, suc, ◌-◌, ◌^◌, Bool, true, false, List, [], ◌∷◌, ◌++◌, if◌then◌else◌, ◌==◌,
}
use rate_throttle.Prelude.Int.{ℤ, pos, negsuc, ltb_ℤ}
use rate_throttle.Text.{Bytes, codes}
use rate_throttle.Regression.Double.{Double}
use rate_throttle.Regression.Table.{pad_cell, truncate_cell}
use rate_throttle.Regression.Report.{
  Piece, text, reset, bold, green, red, blue, magenta, newline, test_w, iter_w, val_w, delta_w,
  dur_w,
}
use rate_throttle.Regression.Report.Rows.{dash_arrow, up_arrow, down_arrow}
use rate_throttle.Bench.{
  Bench, Kind, dim_gray, solo_val_w, title_case, edge, emit, transcribe, begin_suite, show_duration,
  duration_bar, ensure_table, separate, close_table, ResultTally,
}

-- The measurements of a macro's three tiers, under each macro.
pub data Call : Type 0 where
  bench : Bytes → ℤ × ℤ → ℤ × ℤ → ℤ × ℤ → Call
  bench_solo : Bytes → ℤ → ℤ → ℤ → Call
  bench_custom : Bytes → ℤ × ℤ → ℤ × ℤ → ℤ × ℤ → Call
  bench_solo_custom : Bytes → ℤ → ℤ → ℤ → Call

-- static_cast<std::uint64_t>
unfoldable pub unsigned : ℤ → ℕ
unsigned (pos n) = n
unsigned (negsuc n) = 2 ^ 64 - 1 - n

module _ (double : Double) where
  open double use {D, of_ℕ, quotient, sub, mul, div, lt, to_int, fixed, fixed_showpos}

  unfoldable pub solo_cells : Bytes → Bytes → ℤ → List Piece
  solo_cells name iteration ns =
      edge
      ++ text (pad_cell (b' ' ∷ truncate_cell (title_case name) (test_w - 1)) test_w) ∷ edge
      ++ text (pad_cell (b' ' ∷ iteration) iter_w) ∷ edge
      ++ blue ∷ text (pad_cell (b' ' ∷ show_duration double ns) solo_val_w) ∷ reset ∷ edge
      ++ newline ∷ []

  unfoldable pub print_solo_row : Bytes → Bytes → ℤ → Bench double → Bench double
  unfolding emit transcribe ensure_table separate solo_cells
  print_solo_row name iteration ns b =
      let b' = separate double name (ensure_table double true b) in
      transcribe double
        (codes "| "
          ++ title_case name
          ++ codes " | "
          ++ iteration
          ++ codes " | "
          ++ show_duration double ns
          ++ codes " |"
          ++ 0x0A ∷ [])
        (emit double Kind.row true (solo_cells name iteration ns) b')

  -- the change of the custom side against the standard one, in percent
  unfoldable pub change : ℤ → ℤ → D
  change custom_ns std_ns =
      let c = quotient custom_ns 1 in
      let s = quotient std_ns 1 in
      if is_zero std_ns then of_ℕ 0 else mul (div (sub s c) c) (of_ℕ 100)
    where
      is_zero : ℤ → Bool
      is_zero (pos n) = n == 0
      is_zero (negsuc n) = false

  unfoldable pub count_result : D → ResultTally → ResultTally
  count_result pct t =
      if lt (of_ℕ 0) pct
      then record t { custom_wins = suc t.custom_wins }
      else if lt pct (of_ℕ 0)
      then record t { standard_wins = suc t.standard_wins }
      else record t { ties = suc t.ties }

  unfoldable pub change_color : D → Piece
  change_color pct = if lt (of_ℕ 0) pct then green else if lt pct (of_ℕ 0) then red else dim_gray

  unfoldable pub change_arrow : D → Bytes
  change_arrow pct =
      if lt (of_ℕ 0) pct then up_arrow else if lt pct (of_ℕ 0) then down_arrow else dash_arrow

  unfoldable pub timed_cell : ℤ → ℤ → Bytes
  timed_cell ns max_ns =
      b' ' ∷ pad_cell (show_duration double ns) dur_w ++ b' ' ∷ duration_bar double ns max_ns

  unfoldable pub pair_cells : Bytes → Bytes → ℤ → ℤ → List Piece
  pair_cells name iteration custom_ns std_ns =
      let pct = change custom_ns std_ns in
      let max_ns = if ltb_ℤ custom_ns std_ns then std_ns else custom_ns in
      edge
      ++ text (pad_cell (b' ' ∷ truncate_cell (title_case name) (test_w - 1)) test_w) ∷ edge
      ++ text (pad_cell (b' ' ∷ iteration) iter_w) ∷ edge
      ++ blue ∷ text (pad_cell (timed_cell custom_ns max_ns) val_w) ∷ reset ∷ edge
      ++ magenta ∷ text (pad_cell (timed_cell std_ns max_ns) val_w) ∷ reset ∷ edge
      ++ bold
        ∷ change_color pct
        ∷ text (pad_cell (b' ' ∷ change_arrow pct ++ (fixed_showpos 1 pct ++ codes "%")) delta_w)
        ∷ reset
        ∷ edge
      ++ newline ∷ []

  -- printComparisonRow
  unfoldable pub print_pair_row : Bytes → Bytes → ℤ → ℤ → Bench double → Bench double
  unfolding emit transcribe ensure_table separate count_result pair_cells
  print_pair_row name iteration custom_ns std_ns b =
      let pct = change custom_ns std_ns in
      let b' = separate double name (ensure_table double false b) in
      let counted = record b' { result_tally = count_result pct b'.result_tally } in
      transcribe double
        (codes "| "
          ++ title_case name
          ++ codes " | "
          ++ iteration
          ++ codes " | "
          ++ show_duration double custom_ns
          ++ codes " | "
          ++ show_duration double std_ns
          ++ codes " | "
          ++ fixed_showpos 1 pct
          ++ codes "% |"
          ++ 0x0A ∷ [])
        (emit double Kind.row false (pair_cells name iteration custom_ns std_ns) counted)

  -- BENCHMARK with `custom` set: the clock's reading is an argument
  unfoldable pub record_result : Bytes → ℕ → ℤ → Bench double → Bench double
  unfolding unsigned
  record_result name iteration ns b = record b {
    recorded =
        b.recorded
        ++ record {
          suite = b.suite_name;
          operation = name;
          total_ns = unsigned ns;
          iterations = iteration;
          ns_per_op = div (quotient ns 1) (of_ℕ iteration);
        }
          ∷ [];
  }

  -- one tier of a macro
  unfoldable pub solo_tier : Bytes → ℕ → Bytes → ℤ → Bench double → Bench double
  unfolding record_result print_solo_row
  solo_tier name iteration label ns b =
      print_solo_row name label ns (record_result name iteration ns b)

  unfoldable pub pair_tier : Bytes → ℕ → Bytes → ℤ × ℤ → Bench double → Bench double
  unfolding record_result print_pair_row
  pair_tier name iteration label (c, s) b =
      print_pair_row name label c s (record_result name iteration c b)

  unfoldable pub run_call : Call → Bench double → Bench double
  unfolding solo_tier pair_tier
  run_call (bench name p q r) b =
      pair_tier name 1_000_000 (codes "1M") r
        (pair_tier name 100_000 (codes "100K") q (pair_tier name 10_000 (codes "10K") p b))
  run_call (bench_solo name p q r) b =
      solo_tier name 1_000_000 (codes "1M") r
        (solo_tier name 100_000 (codes "100K") q (solo_tier name 10_000 (codes "10K") p b))
  run_call (bench_custom name p q r) b =
      pair_tier name 100 (codes "100") r
        (pair_tier name 10 (codes "10") q (pair_tier name 1 (codes "1") p b))
  run_call (bench_solo_custom name p q r) b =
      solo_tier name 10_000 (codes "10k") r
        (solo_tier name 1_000 (codes "1K") q (solo_tier name 100 (codes "100") p b))

  -- the function of a suite
  unfoldable pub run_calls : List Call → Bench double → Bench double
  unfolding run_call
  run_calls [] b = b
  run_calls (call ∷ calls) b = run_calls calls (run_call call b)

  -- printOneSuite, which is also a turn of the loop of printAllBenchSuite
  unfoldable pub print_one_suite : Bytes → List Call → Bench double → Bench double
  unfolding run_calls emit begin_suite close_table
  print_one_suite name calls b =
      close_table double (
        run_calls calls (begin_suite double name (emit double Kind.outside false (newline ∷ []) b)))

-- ===== src/Regression/Tests.antt =====
-- The theorems on the regression tool at concrete inputs. The doubles are integers here.
use mathlib.Core.List.{Perm}
use rate_throttle.Prelude.{
  ℕ, ◌+◌, ◌≡◌, refl, inl, inr, true, false, List, [], ◌∷◌, ◌++◌, map, arith, ite,
}
use rate_throttle.Prelude.Int.{pos}
use rate_throttle.Text.{Bytes, codes, bytes_dec, contains, is_digit, Result, ok, to_upper}
use rate_throttle.Text.Decimal.{to_string, read_digits}
use rate_throttle.Regression.Double.Numbers.{numbers}
use rate_throttle.Regression.Results.{BenchmarkResult, unique_operations}
use rate_throttle.Regression.Groups.{group_methods_by_letter}
use rate_throttle.Regression.Groups.Order.{members, group_methods-perm}
use rate_throttle.Regression.Groups.Letters.{AllHeaded, group_methods-AllHeaded}
use rate_throttle.Regression.MethodIds.{resolve_method_id, resolve_letter_group, method_id}
use rate_throttle.Regression.MethodIds.RoundTrip.{resolve-method_id, resolve-letter}
use rate_throttle.Regression.Table.{display_width, is_continuation, char_length}
use rate_throttle.Regression.Table.Utf8.{IsText, done, char, IsChar}
use rate_throttle.Regression.Versions.{
  Baseline, Entry, parse_baseline, has_v, extract_version, extract_int, extract_signed, skip_space,
  strip_v, is_space, extract_digits, non_negative, extract_char, first_char,
}
use rate_throttle.Regression.Versions.Newest.{
  collect_baselines, latest_baseline, is_custom_baseline_name,
}
use rate_throttle.Regression.Versions.Newest.Maximum.{latest_baseline-IsNewest, IsNewest}
use rate_throttle.Regression.Versions.Order.{IsOneOf, NoneNewer}
use rate_throttle.Regression.Report.{
  Piece, Tool, RegressionRow, columns, top_border, mid_border, bottom_border, table_widths,
  format_double, format_duration, show_ℤ,
}
use rate_throttle.Regression.Report.Rows.{
  print_regression, is_noise, pct_change, print_comparison_row, draw_group_separator_if_needed,
}
use rate_throttle.Regression.Report.Rows.Align.{columns-print_comparison_row}
use rate_throttle.Regression.Report.Rows.Records.{
  compared, AllCompared, print_regression-AllCompared,
}
use rate_throttle.Regression.Report.Summary.{tally}
use rate_throttle.Regression.Report.Summary.Counts.{tally-counts, count, improved, regressed}
use rate_throttle.Regression.Cli.{live_results_file}
use rate_throttle.Regression.Cli.Run.{Compares, main-newest}

abbrev result : Bytes → ℕ → BenchmarkResult ℕ
result operation ns = record {
  suite = codes "limiter";
  operation = operation;
  total_ns = ns;
  iterations = 10_000;
  ns_per_op = ns;
}

abbrev allow_op : Bytes
allow_op = codes "allow"

abbrev evict_op : Bytes
evict_op = codes "evict"

abbrev baseline : List (BenchmarkResult ℕ)
baseline = result allow_op 300 ∷ result evict_op 500 ∷ result allow_op 310 ∷ []

abbrev current : List (BenchmarkResult ℕ)
current = result evict_op 400 ∷ result allow_op 150 ∷ []

abbrev tool : Tool numbers
tool = record {
  current_label = [];
  baseline_label = [];
  last_row_group = [];
  results = [];
  markdown = [];
  out = [];
}

abbrev names : List Bytes
names = codes "get" ∷ codes "allow" ∷ codes "Add" ∷ []

group_methods-perm_example : Perm (members (group_methods_by_letter names)) names
group_methods-perm_example = group_methods-perm names

group_methods-AllHeaded_example : AllHeaded (group_methods_by_letter names)
group_methods-AllHeaded_example = group_methods-AllHeaded names

-- "héé", of which a cell of two columns keeps the first letter
abbrev accented : Bytes
accented = b'h' ∷ 0xC3 ∷ 0xA9 ∷ 0xC3 ∷ 0xA9 ∷ []

ascii : (c : ℕ) → is_continuation c ≡ false → char_length c ≡ 1 → IsChar c []
ascii c h k = record { lead = h; tail = tt; size = omega arith }

allow_op-IsText : IsText allow_op
unfolding is_continuation char_length
allow_op-IsText = char b'a' [] _ (ascii b'a' refl refl) (
    char b'l' [] _ (ascii b'l' refl refl) (
      char b'l' [] _ (ascii b'l' refl refl)
        (char b'o' [] _ (ascii b'o' refl refl) (char b'w' [] _ (ascii b'w' refl refl) done))))

print_regression-AllCompared_example :
    (recorded : List (RegressionRow numbers)) × ((print_regression numbers baseline current
        tool).results
      ≡ [] ++ recorded)
    × AllCompared numbers current baseline recorded
print_regression-AllCompared_example = print_regression-AllCompared numbers baseline current tool

abbrev rows : List (RegressionRow numbers)
rows = map (compared numbers current) baseline

tally-counts_example :
    ((tally numbers rows).faster ≡ count (improved numbers) rows)
    × ((tally numbers rows).slower ≡ count (regressed numbers) rows)
    × ((tally numbers rows).tied ≡ count (λ row. is_noise numbers row.pct_change) rows)
    × ((tally numbers rows).faster + (tally numbers rows).slower + (tally numbers rows).tied ≡ 3)
tally-counts_example = tally-counts numbers rows

-- the snapshots, by file: the live results, or the baseline's
abbrev load : Bytes → Result (List (BenchmarkResult ℕ))
load file = ite (bytes_dec file live_results_file) (ok current) (ok baseline)

resolve-method_id_example :
    resolve_method_id (λ file. ok baseline) (method_id b'A' 0) live_results_file ≡ ok allow_op
unfolding group_methods_by_letter unique_operations bytes_dec contains to_upper
resolve-method_id_example =
    resolve-method_id (λ file. ok baseline) live_results_file baseline b'A' (allow_op ∷ []) 0
      allow_op refl (cc, (cc, tt)) (inl (refl, refl)) refl (omega arith)

resolve-letter_example :
    resolve_letter_group (λ file. ok baseline) (b'E' ∷ []) live_results_file ≡ ok (evict_op ∷ [])
unfolding group_methods_by_letter unique_operations bytes_dec contains to_upper
resolve-letter_example =
    resolve-letter (λ file. ok baseline) live_results_file baseline b'E' (evict_op ∷ []) refl
      (cc, (cc, tt)) (inr (inl (refl, refl)))

columns-print_comparison_row_example :
    (line : List Piece) × ((print_comparison_row numbers
        (codes "limiter")
        allow_op
        10_000
        (codes "10K")
        4
        3
        tool).out
      ≡ (draw_group_separator_if_needed numbers allow_op tool).out ++ line)
    × (columns line ≡ columns (top_border table_widths))
    × (columns line ≡ columns (mid_border table_widths))
    × (columns line ≡ columns (bottom_border table_widths))
unfolding display_width is_continuation format_double to_string pct_change format_duration show_ℤ
columns-print_comparison_row_example =
    columns-print_comparison_row numbers (codes "limiter") allow_op 10_000 (codes "10K") 4 3 tool
      allow_op-IsText (omega arith) (omega arith) (omega arith) (omega arith)

abbrev entries : List Entry
entries =
    record { is_directory = true; filename = codes "v1.2.0" }
    ∷ record { is_directory = false; filename = codes "README.md" }
    ∷ record { is_directory = true; filename = codes "v1.10.0" }
    ∷ []

abbrev listed : Bytes → ℕ → ℕ → ℕ → Baseline
listed name major minor patch = record {
  major = pos major;
  minor = pos minor;
  patch = pos patch;
  name = name;
}

entries-collect :
    collect_baselines entries
    ≡ ok (listed (codes "v1.2.0") 1 2 0 ∷ listed (codes "v1.10.0") 1 10 0 ∷ [])
unfolding collect_baselines parse_baseline is_custom_baseline_name has_v extract_version extract_int
    extract_signed skip_space strip_v is_space extract_digits is_digit non_negative read_digits
    extract_char first_char
entries-collect = refl

latest_baseline-IsNewest_example : IsNewest (collect_baselines entries) (latest_baseline entries)
latest_baseline-IsNewest_example = latest_baseline-IsNewest entries

main-newest_example :
    (m : Baseline) × IsOneOf m
      (listed (codes "v1.2.0") 1 2 0 ∷ listed (codes "v1.10.0") 1 10 0 ∷ [])
    × NoneNewer m (listed (codes "v1.2.0") 1 2 0 ∷ listed (codes "v1.10.0") 1 10 0 ∷ [])
    × Compares numbers entries (λ file. ok baseline) [] tool baseline baseline
main-newest_example =
    main-newest numbers entries (λ file. ok baseline) (λ file. baseline)
      (listed (codes "v1.2.0") 1 2 0) (listed (codes "v1.10.0") 1 10 0 ∷ []) tool entries-collect
      (λ file. refl)

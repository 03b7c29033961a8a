-- ===== src/Google/Tests/Runs.antt =====
-- The google tool's table, its ids and its command line at concrete inputs.
use rate_throttle.Prelude.{
  ℕ, ◌≡◌, refl, false, List, [], ◌∷◌, ◌++◌, map, arith, ite, inl, ℕ_discrete,
}
use Prim.Native.Nat.{max}
use rate_throttle.Text.{Bytes, codes, bytes_dec, contains, to_upper, is_digit, is_alpha, Result, ok}
use rate_throttle.Text.Decimal.{to_string, read_digits}
use rate_throttle.Regression.Double.Numbers.{numbers}
use rate_throttle.Regression.Versions.{
  Baseline, has_v, parse_baseline, strip_v, is_space, skip_space, extract_digits, non_negative,
  extract_signed, extract_int, first_char, extract_char, extract_version,
}
use rate_throttle.Regression.Versions.Newest.{collect_baselines, is_custom_baseline_name}
use rate_throttle.Google.Newest.{entry_of}
use rate_throttle.Regression.Versions.Agree.{version_tag}
use rate_throttle.Regression.Versions.Order.{IsOneOf, NoneNewer}
use rate_throttle.Regression.Groups.{group_methods_by_letter}
use rate_throttle.Regression.MethodIds.{method_id}
use rate_throttle.Regression.Table.{display_width, is_continuation, char_length}
use rate_throttle.Regression.Table.Utf8.{IsText, IsChar, char, done}
use rate_throttle.Regression.Report.{columns, format_double, format_duration, show_ℤ}
use rate_throttle.Regression.Report.Rows.{pct_change, value_cell, delta_style, arrow}
use rate_throttle.Regression.Cli.Run.{numbered}
use rate_throttle.Google.{GoogleResult, unique_names, filter_by_name}
use rate_throttle.Google.Table.{GoogleTool, google_row_line}
use rate_throttle.Google.Table.Align.{columns-google_line}
use rate_throttle.Google.Cli.{google_live_file, google_baseline_path}
use rate_throttle.Google.Cli.Run.{GoogleCompares, google_main-newest, google_main-id}
use rate_throttle.Google.Tests.{folders}

abbrev timed : Bytes → ℕ → GoogleResult ℕ
timed name time = record {
  name = name;
  iterations = 1_000;
  real_time = time;
  cpu_time = time;
  time_unit = codes "ns";
}

abbrev insert_impl : Bytes
insert_impl = codes "Insert_Impl"

abbrev erase_impl : Bytes
erase_impl = codes "Erase_Impl"

abbrev baseline : List (GoogleResult ℕ)
baseline = timed insert_impl 30 ∷ timed erase_impl 50 ∷ []

abbrev current : List (GoogleResult ℕ)
current = timed erase_impl 40 ∷ timed insert_impl 15 ∷ []

abbrev tool : GoogleTool numbers
tool = record { current_label = []; baseline_label = []; rows = []; markdown = []; out = [] }

abbrev load : Bytes → Result (List (GoogleResult ℕ))
load file = ite (bytes_dec file google_live_file) (ok current) (ok baseline)

abbrev short_name : Bytes
short_name = codes "B_I"

ascii : (c : ℕ) → is_continuation c ≡ false → char_length c ≡ 1 → IsChar c []
ascii c h k = record { lead = h; tail = tt; size = omega arith }

short_name-IsText : IsText short_name
unfolding is_continuation char_length
short_name-IsText =
    char b'B' [] _ (ascii b'B' refl refl)
      (char b'_' [] _ (ascii b'_' refl refl) (char b'I' [] _ (ascii b'I' refl refl) done))

columns-google_line_example :
    columns (
      google_row_line short_name
        (value_cell numbers 3 (max 4 3))
        (value_cell numbers 4 (max 4 3))
        (delta_style numbers (pct_change numbers 4 3))
        (b' ' ∷ arrow numbers (pct_change numbers 4 3) ++ (codes "+" ++ to_string 0 ++ codes "%")))
    ≡ 100
unfolding display_width is_continuation format_double to_string pct_change format_duration show_ℤ
columns-google_line_example =
    columns-google_line numbers short_name 4 3 short_name-IsText (omega arith) (omega arith)
      (omega arith)

folders-collect : collect_baselines (map entry_of folders) ≡ ok (numbered 1 2 0 ∷ [])
unfolding collect_baselines parse_baseline is_custom_baseline_name has_v extract_version extract_int
    extract_signed skip_space strip_v is_space extract_digits is_digit non_negative read_digits
    extract_char first_char to_string
folders-collect = refl

google_main-newest_example :
    (m : Baseline) × IsOneOf m (numbered 1 2 0 ∷ [])
    × NoneNewer m (numbered 1 2 0 ∷ [])
    × GoogleCompares numbers folders (λ file. ok baseline) [] tool baseline baseline
google_main-newest_example =
    google_main-newest numbers folders (λ file. ok baseline) (λ file. baseline) (numbered 1 2 0) []
      tool folders-collect (λ file. refl)

google_main-id_example :
    GoogleCompares numbers folders load
      (version_tag 1 2 3 ∷ method_id b'E' 0 ∷ [])
      tool
      (filter_by_name baseline erase_impl)
      (filter_by_name current erase_impl)
unfolding group_methods_by_letter unique_names bytes_dec contains to_upper ℕ_discrete to_string
    filter_by_name has_v google_baseline_path is_alpha method_id
google_main-id_example =
    google_main-id numbers folders load 1 2 3 b'E' 0 (erase_impl ∷ []) erase_impl tool baseline
      current (omega arith) (omega arith) (omega arith) refl refl (cc, (cc, tt)) (inl (refl, refl))
      refl (omega arith) refl refl refl refl refl

-- ===== src/Google/Common.antt =====
-- regression/google/support/helpers.h: the functions whose text is the same in both tools. Each of them
-- is defined as the custom tool's.
use rate_throttle.Prelude.{ℕ, Bool, List, Option}
use rate_throttle.Prelude.Int.{ℤ}
use rate_throttle.Text.{Bytes, Result}
use rate_throttle.Regression.Double.{Double}
use rate_throttle.Regression.Groups.{
  group_methods_by_letter as custom_groups, letter_of as custom_letter, push_group as custom_push,
  less_ci as custom_less,
}
use rate_throttle.Regression.MethodIds.{
  looks_like_method_id as custom_looks_like_id, all_digits as custom_all_digits,
  looks_like_letter_group as custom_looks_like_group, pick_method as custom_pick_method,
  pick_group as custom_pick_group,
}
use rate_throttle.Regression.Versions.{
  Baseline, extract_version as custom_extract, strip_v as custom_strip,
  parse_baseline as custom_parse, try_parse_version_arg as custom_try_parse,
  baseline_lt as custom_lt,
}
use rate_throttle.Regression.Table.{
  display_width as custom_width, repeat as custom_repeat, pad_cell as custom_pad,
  truncate_cell as custom_truncate, char_length as custom_char_length,
}
use rate_throttle.Regression.Report.{
  Piece, draw_border as custom_border, bar as custom_bar, format_magnitude as custom_magnitude,
  format_duration as custom_duration, format_double as custom_double,
}

abbrev pub less_ci : Bytes → Bytes → Bool
less_ci = custom_less

abbrev pub letter_of : Bytes → ℕ
letter_of = custom_letter

abbrev pub push_group : List (ℕ × List Bytes) → ℕ → Bytes → List (ℕ × List Bytes)
push_group = custom_push

abbrev pub group_methods_by_letter : List Bytes → List (ℕ × List Bytes)
group_methods_by_letter = custom_groups

abbrev pub all_digits : Bytes → Bool
all_digits = custom_all_digits

abbrev pub looks_like_method_id : Bytes → Bool
looks_like_method_id = custom_looks_like_id

abbrev pub looks_like_letter_group : Bytes → Bool
looks_like_letter_group = custom_looks_like_group

-- the loops over the groups
abbrev pub pick_method : Bytes → ℕ → ℕ → List (ℕ × List Bytes) → Result Bytes
pick_method = custom_pick_method

abbrev pub pick_group : Bytes → ℕ → List (ℕ × List Bytes) → Result (List Bytes)
pick_group = custom_pick_group

abbrev pub strip_v : Bytes → Bytes
strip_v = custom_strip

abbrev pub extract_version : Bytes → Bytes → Option (Baseline × Bytes)
extract_version = custom_extract

abbrev pub parse_baseline : Bytes → Result Baseline
parse_baseline = custom_parse

abbrev pub try_parse_version_arg : Bytes → Option Baseline
try_parse_version_arg = custom_try_parse

abbrev pub baseline_lt : Baseline → Baseline → Bool
baseline_lt = custom_lt

abbrev pub display_width : Bytes → ℕ
display_width = custom_width

abbrev pub repeat : Bytes → ℕ → Bytes
repeat = custom_repeat

abbrev pub pad_cell : Bytes → ℕ → Bytes
pad_cell = custom_pad

abbrev pub char_length : ℕ → ℕ
char_length = custom_char_length

abbrev pub truncate_cell : Bytes → ℕ → Bytes
truncate_cell = custom_truncate

abbrev pub draw_border : Bytes → Bytes → Bytes → List ℕ → List Piece
draw_border = custom_border

module _ (double : Double) where
  open double use {D}

  abbrev pub bar : D → D → Bytes
  bar = custom_bar double

  abbrev pub format_magnitude : D → Bytes
  format_magnitude = custom_magnitude double

  abbrev pub format_duration : ℤ → Bytes
  format_duration = custom_duration double

  abbrev pub format_double : D → Bytes
  format_double = custom_double double

-- ===== src/Examples/Printing.antt =====
-- examples/support/framework.h: the header of an example, the boxed counts, a run of suites, the list of
-- suites and the usage text.
use Prim.Native.Nat.{max}
use rate_throttle.Prelude.{ℕ, ◌+◌, ◌-◌, List, [], ◌∷◌, ◌++◌, if◌then◌else◌, ite, length, replicate}
use rate_throttle.Text.{Bytes, codes, bytes_dec, contains, null}
use rate_throttle.Text.Decimal.{to_string}
use rate_throttle.Regression.Double.{Double}
use rate_throttle.Regression.Report.{
  Piece, text, escape, reset, bold, green, cyan, gray, newline, glyph, rule,
}
use rate_throttle.Regression.Listing.{set_w, branch}
use rate_throttle.Regression.Listing.Usage.{
  yellow, UsageRow, usage_row, seg, column_width, usage_lines,
}
use rate_throttle.Examples.{ExampleSuite, prettify, visual_width, pad_cell, draw_border}

abbrev pub dim : Piece
dim = escape (codes "2m")

-- drawBorder(TL, TM, TR, {width}) and drawBorder(BL, BM, BR, {width})
abbrev pub box_top : ℕ → List Piece
box_top width = draw_border (glyph 0x8C) (glyph 0xAC) (glyph 0x90) (width ∷ [])

abbrev pub box_bottom : ℕ → List Piece
box_bottom width = draw_border (glyph 0x94) (glyph 0xB4) (glyph 0x98) (width ∷ [])

abbrev pub id_prefix : ExampleSuite → Bytes
id_prefix suite = codes "[" ++ suite.id ++ codes "] "

unfoldable pub header_width : ExampleSuite → ℕ
header_width suite =
    max (visual_width (id_prefix suite ++ suite.name)) (visual_width suite.category) + 2

unfoldable pub name_line : ExampleSuite → List Piece
unfolding header_width
name_line suite =
    rule
    ++ text (codes " ")
      ∷ yellow
      ∷ text (id_prefix suite)
      ∷ reset
      ∷ bold
      ∷ text (pad_cell suite.name (header_width suite - 2 - visual_width (id_prefix suite)))
      ∷ reset
      ∷ text (codes " ")
      ∷ rule
    ++ newline ∷ []

unfoldable pub category_line : ExampleSuite → List Piece
unfolding header_width
category_line suite =
    rule
    ++ text (codes " ")
      ∷ dim
      ∷ text (pad_cell suite.category (header_width suite - 2))
      ∷ reset
      ∷ text (codes " ")
      ∷ rule
    ++ newline ∷ []

unfoldable pub print_example_header : ExampleSuite → List Piece
unfolding name_line category_line
print_example_header suite =
    newline ∷ box_top (header_width suite)
    ++ name_line suite
    ++ category_line suite
    ++ box_bottom (header_width suite)

-- a boxed row of a label and a value
pub record StatRow : Type 0 where
  pub label : Bytes
  pub value : Bytes

abbrev pub stat : Bytes → Bytes → StatRow
stat label value = record { label = label; value = value }

unfoldable pub label_width : List StatRow → ℕ
label_width [] = 0
label_width (r ∷ rs) = max (visual_width r.label) (label_width rs)

unfoldable pub value_width : List StatRow → ℕ
value_width [] = 0
value_width (r ∷ rs) = max (visual_width r.value) (value_width rs)

unfoldable pub stat_line : ℕ → ℕ → StatRow → List Piece
stat_line labels values r =
    rule
    ++ text (codes " ")
      ∷ text (pad_cell r.label labels)
      ∷ text (codes " ")
      ∷ text (replicate (values - visual_width r.value) b' ')
      ∷ green
      ∷ text r.value
      ∷ reset
      ∷ text (codes " ")
      ∷ rule
    ++ newline ∷ []

unfoldable pub stat_lines : ℕ → ℕ → List StatRow → List Piece
unfolding stat_line
stat_lines labels values [] = []
stat_lines labels values (r ∷ rs) = stat_line labels values r ++ stat_lines labels values rs

unfoldable pub stat_box : List StatRow → List Piece
unfolding label_width value_width stat_lines
stat_box rows =
    let width = label_width rows + value_width rows + 3 in
    box_top width ++ stat_lines (label_width rows) (value_width rows) rows ++ box_bottom width

module _ (double : Double) where
  open double use {D, fixed}

  unfoldable pub print_run_summary : ℕ → ℕ → D → List Piece
  unfolding stat_box
  print_run_summary examples categories elapsed_ms =
      newline
        ∷ stat_box (
            stat (codes "Examples") (to_string examples)
            ∷ stat (codes "Categories") (to_string categories)
            ∷ stat (codes "Time") (fixed 1 elapsed_ms ++ codes "ms")
            ∷ [])
      ++ newline ∷ []

  unfoldable pub suite_pieces : List ExampleSuite → List Piece
  unfolding print_example_header
  suite_pieces [] = []
  suite_pieces (s ∷ ss) = print_example_header s ++ s.run ++ suite_pieces ss

  -- the time that the suites took is an argument
  unfoldable pub run_suites : List ExampleSuite → ℕ → D → List Piece
  unfolding suite_pieces print_run_summary
  run_suites suites categories elapsed_ms =
      suite_pieces suites ++ print_run_summary (length suites) categories elapsed_ms

  -- the distinct categories, in order
  unfoldable pub distinct_categories : List Bytes → List ExampleSuite → List Bytes
  distinct_categories categories [] = categories
  distinct_categories categories (s ∷ ss) =
      distinct_categories
        (if contains categories s.category then categories else (categories ++ s.category ∷ [])) ss

  unfoldable pub print_all_example_suite : List ExampleSuite → D → List Piece
  unfolding run_suites distinct_categories
  print_all_example_suite suites elapsed_ms =
      run_suites suites (length (distinct_categories [] suites)) elapsed_ms

-- `grouped.back()` takes the suite if its category is the suite's; else a new group does.
unfoldable pub push_suite :
    List (Bytes × List ExampleSuite) → ExampleSuite → List (Bytes × List ExampleSuite)
push_suite [] suite = (suite.category, suite ∷ []) ∷ []
push_suite ((category, suites) ∷ []) suite =
    ite (bytes_dec category suite.category) ((category, suites ++ suite ∷ []) ∷ [])
      ((category, suites) ∷ (suite.category, suite ∷ []) ∷ [])
push_suite (g ∷ g' ∷ groups) suite = g ∷ push_suite (g' ∷ groups) suite

unfoldable pub group_suites :
    List (Bytes × List ExampleSuite) → List ExampleSuite → List (Bytes × List ExampleSuite)
unfolding push_suite
group_suites grouped [] = grouped
group_suites grouped (s ∷ ss) = group_suites (push_suite grouped s) ss

unfoldable pub widest_id : List ExampleSuite → ℕ
widest_id [] = 0
widest_id (s ∷ ss) = max (length s.id) (widest_id ss)

unfoldable pub suite_lines : ℕ → List ExampleSuite → List Piece
unfolding set_w branch
suite_lines id_width [] = []
suite_lines id_width (s ∷ ss) =
    cyan
    ∷ text (branch (null ss))
    ∷ reset
    ∷ green
    ∷ text (codes "[")
    ∷ text (set_w id_width s.id)
    ∷ text (codes "]")
    ∷ reset
    ∷ text (codes "  ")
    ∷ text s.name
    ∷ newline
    ∷ suite_lines id_width ss

unfoldable pub category_lines : ℕ → List (Bytes × List ExampleSuite) → List Piece
unfolding suite_lines
category_lines id_width [] = []
category_lines id_width ((category, suites) ∷ groups) =
    newline
      ∷ bold
      ∷ cyan
      ∷ text (prettify category)
      ∷ reset
      ∷ dim
      ∷ text (codes " (" ++ to_string (length suites) ++ codes ")")
      ∷ reset
      ∷ newline
      ∷ suite_lines id_width suites
    ++ category_lines id_width groups

unfoldable pub print_example_suite_list : List ExampleSuite → List Piece
unfolding group_suites widest_id category_lines stat_box
print_example_suite_list suites =
    let grouped = group_suites [] suites in
    newline
      ∷ bold
      ∷ text (codes "Available example suites")
      ∷ reset
      ∷ newline
      ∷ category_lines (widest_id suites) grouped
    ++ newline
      ∷ stat_box (
          stat (codes "Suites") (to_string (length suites))
          ∷ stat (codes "Categories") (to_string (length grouped))
          ∷ [])
    ++ newline ∷ []

unfoldable pub print_one_suite : ExampleSuite → List Piece
unfolding print_example_header
print_one_suite suite = print_example_header suite ++ suite.run ++ newline ∷ []

abbrev pub example_rows : List UsageRow
example_rows =
    usage_row (seg cyan (codes "examples") ∷ []) (codes "run every example in order")
    ∷ usage_row (seg cyan (codes "examples") ∷ seg yellow (codes " list") ∷ [])
        (codes "list all examples, grouped by category")
    ∷ usage_row (seg cyan (codes "examples") ∷ seg gray (codes " <category>") ∷ [])
        (codes "run every example in a category, e.g. quickstart")
    ∷ usage_row (seg cyan (codes "examples") ∷ seg gray (codes " <id>") ∷ [])
        (codes "run a single example by id, e.g. Q1")
    ∷ usage_row (seg cyan (codes "examples") ∷ seg gray (codes " <name>") ∷ [])
        (codes "run a single example by file name, e.g. basic_behavior")
    ∷ usage_row (seg cyan (codes "examples") ∷ seg yellow (codes " -h | --help") ∷ [])
        (codes "show this help message")
    ∷ []

unfoldable pub print_example_usage : List Piece
unfolding usage_lines column_width
print_example_usage =
    newline
      ∷ bold
      ∷ text (codes "Usage:")
      ∷ reset
      ∷ newline
      ∷ usage_lines dim (column_width example_rows + 3) example_rows
    ++ newline ∷ dim ∷ text (codes "Matching is case-insensitive.") ∷ reset ∷ newline ∷ newline ∷ []

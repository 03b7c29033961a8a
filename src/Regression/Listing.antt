-- ===== src/Regression/Listing.antt =====
-- regression/custom/support/framework.h, printMethods and printList, and the usage text of
-- regression_main.cpp, as pieces of output. The directory's entries and the reading of a snapshot are
-- parameters.
pub mod Order
pub mod Align
pub mod Trees
pub mod Usage
mod Tests
use Prim.Native.Nat.{max}
use rate_throttle.Prelude.{
  ℕ, zero, suc, ◌+◌, ◌-◌, Bool, true, false, List, [], ◌∷◌, ◌++◌, if◌then◌else◌, ite, length,
  Option, none, some, replicate,
}
use rate_throttle.Text.{Bytes, codes, bytes_dec, null, Result, ok, throw, ◌>>=◌}
use rate_throttle.Text.Decimal.{to_string}
use rate_throttle.Regression.Results.{BenchmarkResult, unique_operations}
use rate_throttle.Regression.Groups.{group_methods_by_letter}
use rate_throttle.Regression.MethodIds.{method_id}
use rate_throttle.Regression.Versions.{Baseline, Entry, baseline_lt}
use rate_throttle.Regression.Versions.Newest.{collect_baselines}
use rate_throttle.Regression.Table.{display_width, repeat, h_line, v_line}
use rate_throttle.Regression.Report.{Piece, text, escape, reset, green, cyan, newline, glyph}

abbrev pub white : Piece
white = escape (codes "97m")

abbrev pub dark_gray : Piece
dark_gray = escape (codes "90m")

-- std::left << std::setw(w), which counts bytes
unfoldable pub set_w : ℕ → Bytes → Bytes
set_w w s = s ++ replicate (w - length s) b' '

-- std::sort; the order of baselines is total, so equal ones are the same
unfoldable pub insert_baseline : Baseline → List Baseline → List Baseline
insert_baseline b [] = b ∷ []
insert_baseline b (c ∷ cs) =
    let rest = insert_baseline b cs in if baseline_lt c b then c ∷ rest else b ∷ c ∷ cs

unfoldable pub sort_baselines : List Baseline → List Baseline
unfolding insert_baseline
sort_baselines [] = []
sort_baselines (b ∷ bs) = insert_baseline b (sort_baselines bs)

-- one border of a cyan box around `width` columns, and a row of it
unfoldable pub box_border : Bytes → Bytes → ℕ → List Piece
box_border left right width =
    cyan ∷ text left ∷ text (repeat h_line (width + 2)) ∷ text right ∷ reset ∷ newline ∷ []

unfoldable pub box_row : ℕ → Bytes → Bytes → ℕ → List Piece
unfolding set_w
box_row width label value plain_len =
    cyan
    ∷ text (v_line ++ b' ' ∷ [])
    ∷ reset
    ∷ white
    ∷ text (set_w 13 label)
    ∷ reset
    ∷ green
    ∷ text value
    ∷ reset
    ∷ text (replicate (width - plain_len) b' ')
    ∷ cyan
    ∷ text (b' ' ∷ v_line)
    ∷ reset
    ∷ newline
    ∷ []

-- the box above a baseline's tree
unfoldable pub version_box : Bytes → ℕ → List Piece
unfolding box_border box_row set_w
version_box name count =
    let version_len = display_width (set_w 13 (codes "Version") ++ name) in
    let methods_len = display_width (set_w 13 (codes "Methods") ++ to_string count) in
    let width = max version_len methods_len in
    box_border (glyph 0x8C) (glyph 0x90) width
    ++ box_row width (codes "Version") name version_len
    ++ box_row width (codes "Methods") (to_string count) methods_len
    ++ box_border (glyph 0x94) (glyph 0x98) width
    ++ newline ∷ []

-- "└─ " and "├─ "
unfoldable pub branch : Bool → Bytes
branch last = (if last then glyph 0x94 else glyph 0x9C) ++ h_line ++ b' ' ∷ []

-- the members of a letter, the first of them with the number `j` + 1
unfoldable pub member_lines : ℕ → ℕ → ℕ → List Bytes → List Piece
unfolding branch set_w
member_lines letter id_width j [] = []
member_lines letter id_width j (m ∷ ms) =
    cyan
    ∷ text (branch (null ms))
    ∷ reset
    ∷ green
    ∷ text (codes "[")
    ∷ text (set_w id_width (method_id letter j))
    ∷ text (codes "]")
    ∷ reset
    ∷ text (codes "  ")
    ∷ white
    ∷ text m
    ∷ reset
    ∷ newline
    ∷ member_lines letter id_width (suc j) ms

unfoldable pub letter_line : ℕ → ℕ → List Piece
letter_line letter count =
    green
    ∷ text (letter ∷ [])
    ∷ reset
    ∷ text (codes " ")
    ∷ dark_gray
    ∷ text (codes "(" ++ to_string count ++ codes ")")
    ∷ reset
    ∷ newline
    ∷ []

unfoldable pub group_lines : List (ℕ × List Bytes) → List Piece
unfolding member_lines letter_line
group_lines [] = []
group_lines ((letter, members) ∷ groups) =
    letter_line letter (length members)
    ++ member_lines letter (length (to_string (length members)) + 1) 0 members
    ++ (if null groups then [] else newline ∷ [])
    ++ group_lines groups

-- what is printed before an exception, and its message if there is one
pub record Printed : Type 0 where
  pub pieces : List Piece
  pub error : Option Bytes

-- `baselines = {*it}`
unfoldable pub find_version : Bytes → Bytes → List Baseline → Result (List Baseline)
find_version wanted version_filter [] =
    throw (codes "No baseline found for version '" ++ version_filter ++ codes "'.")
find_version wanted version_filter (b ∷ bs) =
    let rest = find_version wanted version_filter bs in
    ite (bytes_dec b.name wanted) (ok (b ∷ [])) rest

unfoldable pub choose_version : Bytes → List Baseline → Result (List Baseline)
unfolding find_version
choose_version version_filter bs =
    if null version_filter then ok bs else find_version version_filter version_filter bs

module _ {D : Type 0} (load : Bytes → Result (List (BenchmarkResult D))) where
  unfoldable pub listing : Bytes → List (BenchmarkResult D) → List Piece
  unfolding version_box group_lines
  listing name results =
      let operations = unique_operations results in
      version_box name (length operations)
      ++ group_lines (group_methods_by_letter operations)
      ++ newline ∷ []

  -- the loop over the baselines
  unfoldable pub methods_loop : List Baseline → Printed
  unfolding listing
  methods_loop [] = record { pieces = []; error = none }
  methods_loop (b ∷ bs) =
      let rest = methods_loop bs in
      elim (load (codes "benchmarks/baselines/" ++ b.name ++ b'/' ∷ b.name ++ codes ".json")) [
        | throw e ↦ record { pieces = []; error = some e }
        | ok results ↦ record { pieces = listing b.name results ++ rest.pieces; error = rest.error }
      ]

  unfoldable pub print_methods : List Entry → Bytes → Printed
  unfolding methods_loop choose_version sort_baselines
  print_methods entries version_filter =
      elim (do
        baselines ← collect_baselines entries
        choose_version version_filter (sort_baselines baselines)) [
          | throw e ↦ record { pieces = []; error = some e }
          | ok baselines ↦ methods_loop baselines
        ]

-- the tree of version tags
unfoldable pub version_lines : List Baseline → List Piece
unfolding branch
version_lines [] = []
version_lines (b ∷ bs) =
    cyan
    ∷ text (branch (null bs))
    ∷ reset
    ∷ green
    ∷ text b.name
    ∷ reset
    ∷ newline
    ∷ version_lines bs

-- the box with the count
unfoldable pub count_row : ℕ → List Piece
count_row n =
    cyan
    ∷ text (v_line ++ b' ' ∷ [])
    ∷ reset
    ∷ text (codes "Version: ")
    ∷ green
    ∷ text (to_string n)
    ∷ reset
    ∷ cyan
    ∷ text (b' ' ∷ v_line)
    ∷ reset
    ∷ newline
    ∷ []

unfoldable pub count_box : ℕ → List Piece
unfolding box_border count_row
count_box n =
    let width = display_width (codes "Version: " ++ to_string n) in
    box_border (glyph 0x8C) (glyph 0x90) width
    ++ count_row n
    ++ box_border (glyph 0x94) (glyph 0x98) width

-- what printList prints of the sorted baselines
unfoldable pub list_pieces : Bytes → List Baseline → List Piece
unfolding version_lines count_box
list_pieces custom baselines =
    white
      ∷ text (codes "Available version")
      ∷ reset
      ∷ newline
      ∷ newline
      ∷ cyan
      ∷ text custom
      ∷ reset
      ∷ newline
      ∷ version_lines baselines
    ++ newline ∷ count_box (length baselines)

unfoldable pub print_list : List Entry → Bytes → Printed
unfolding list_pieces sort_baselines
print_list entries custom = elim (collect_baselines entries) [
  | throw e ↦ record { pieces = []; error = some e }
  | ok baselines ↦ record { pieces = list_pieces custom (sort_baselines baselines); error = none }
]

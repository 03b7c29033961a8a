-- ===== src/Regression/Listing/Usage.antt =====
-- The usage texts of the tools: rows of a command and its description, the descriptions in one column
-- (printUsage of regression_main.cpp, of both regression tools, and of examples/support/framework.h).
use Prim.Native.Nat.{max}
use rate_throttle.Prelude.{ℕ, ◌+◌, ◌-◌, ◌≡◌, ◌⊎◌, List, [], ◌∷◌, ◌++◌, replicate}
use rate_throttle.Text.{Bytes, codes}
use rate_throttle.Regression.Table.{display_width}
use rate_throttle.Regression.Report.{Piece, columns, text, escape, reset, bold, cyan, gray, newline}
use rate_throttle.Regression.Listing.{dark_gray}

abbrev pub yellow : Piece
yellow = escape (codes "93m")

-- Segment: a colour and a text
pub record Segment : Type 0 where
  pub color : Piece
  pub words : Bytes

pub record UsageRow : Type 0 where
  pub segments : List Segment
  pub description : Bytes

abbrev pub usage_row : List Segment → Bytes → UsageRow
usage_row segments description = record { segments = segments; description = description }

abbrev pub seg : Piece → Bytes → Segment
seg color words = record { color = color; words = words }

unfoldable pub segments_width : List Segment → ℕ
segments_width [] = 0
segments_width (s ∷ ss) = display_width s.words + segments_width ss

-- the loop for `colWidth`, without the 3 that are added at its end
unfoldable pub column_width : List UsageRow → ℕ
unfolding segments_width
column_width [] = 0
column_width (r ∷ rs) = max (segments_width r.segments) (column_width rs)

unfoldable pub segment_pieces : List Segment → List Piece
segment_pieces [] = []
segment_pieces (s ∷ ss) = s.color ∷ text s.words ∷ reset ∷ segment_pieces ss

-- what precedes a description
unfoldable pub command_cell : ℕ → UsageRow → List Piece
unfolding segment_pieces segments_width
command_cell width r =
    text (codes "  ") ∷ segment_pieces r.segments
    ++ text (replicate (width - segments_width r.segments) b' ') ∷ []

unfoldable pub usage_lines : Piece → ℕ → List UsageRow → List Piece
unfolding command_cell
usage_lines dim width [] = []
usage_lines dim width (r ∷ rs) =
    command_cell width r ++ dim ∷ text r.description ∷ reset ∷ newline ∷ usage_lines dim width rs

-- the rows of the custom tool
abbrev pub custom_rows : List UsageRow
custom_rows =
    usage_row (seg cyan (codes "regression") ∷ []) (codes "compare newest baseline vs current run")
    ∷ usage_row (seg cyan (codes "regression") ∷ seg yellow (codes " list") ∷ [])
        (codes "list all baselines")
    ∷ usage_row
        (seg cyan (codes "regression")
          ∷ seg yellow (codes " methods")
          ∷ seg gray (codes " [<baseline>]")
          ∷ [])
        (codes "list methods (all, or one baseline)")
    ∷ usage_row
        (seg cyan (codes "regression")
          ∷ seg gray (codes " <baseline>")
          ∷ seg gray (codes " [<method>]")
          ∷ [])
        (codes "vs one baseline")
    ∷ usage_row (seg cyan (codes "regression") ∷ seg gray (codes " <method>") ∷ [])
        (codes "vs current run, one method")
    ∷ usage_row (seg cyan (codes "regression") ∷ seg gray (codes " <baseline> <baseline>") ∷ [])
        (codes "baseline vs baseline")
    ∷ usage_row
        (seg cyan (codes "regression") ∷ seg gray (codes " <baseline> <baseline> <method>") ∷ [])
        (codes "baseline vs baseline, one method")
    ∷ usage_row (seg cyan (codes "regression") ∷ seg yellow (codes " -h | --help | help") ∷ [])
        (codes "this summary")
    ∷ []

-- printUsage of the custom tool, on std::cerr
unfoldable pub print_usage : List Piece
unfolding usage_lines column_width
print_usage =
    bold
      ∷ text (codes "Usage:")
      ∷ reset
      ∷ newline
      ∷ usage_lines dark_gray (column_width custom_rows + 3) custom_rows
    ++ newline
      ∷ gray
      ∷ text (codes "<baseline>")
      ∷ dark_gray
      ∷ text (codes " = version tag, e.g. v1.2.0    ")
      ∷ gray
      ∷ text (codes "<method>")
      ∷ dark_gray
      ∷ text (codes " = benchmark name, e.g. push_back")
      ∷ reset
      ∷ newline
      ∷ newline
      ∷ dark_gray
      ∷ text
          (codes "quoting: a <method> with spaces/commas doesn't need quotes -- every word after")
      ∷ newline
      ∷ text (codes "the tag(s) joins back into the name")
      ∷ newline
      ∷ newline
      ∷ text (codes "shortcuts: <method> can be a [LetterN] id from ")
      ∷ reset
      ∷ yellow
      ∷ text (codes "methods")
      ∷ reset
      ∷ dark_gray
      ∷ text (codes " (e.g. \"u1\"), or just the letter (e.g. \"u\") to run")
      ∷ newline
      ∷ text (codes "every method in that group")
      ∷ reset
      ∷ newline
      ∷ []

-- The row is one of the rows.
abbrev pub IsRow : UsageRow → List UsageRow → Type 0
IsRow r [] = ⊥
IsRow r (q ∷ rs) = (q ≡ r) ⊎ IsRow r rs

-- The colours are escape sequences.
abbrev pub AllColours : List Segment → Type 0
AllColours [] = Unit
AllColours (s ∷ ss) = (columns (s.color ∷ []) ≡ 0) × AllColours ss

-- ===== src/Cli/Table.antt =====
-- cmd/agent/main.go: a result as a table. A cell is clipped and measured in bytes, and padded by runes.
pub mod Aligned
use querylynx.Base.{ℕ, ◌-◌, List, [], ◌∷◌, ◌++◌, map, length, take, ltb, leb, if◌then◌else◌, is_nil}
use querylynx.Strings.{codes, join, decimal}
use querylynx.Utf8.{Bytes, encode}
use querylynx.Connector.{Cell, null, shown, Rows}
use querylynx.Cli.Format.{repeat, pad_right}

abbrev pub max_display_rows : ℕ
max_display_rows = 50

unfoldable pub cell : Cell → Bytes
unfolding encode
cell null = encode (codes "NULL")
cell (shown t) = encode t

unfoldable pub clip : Bytes → ℕ → Bytes
unfolding encode
clip s n = if leb (length s) n then s else take (n - 1) s ++ encode (codes "…")

-- The cells of a row: one for each column, and NULL where the row is too short.
unfoldable pub row_cells : List Bytes → List Cell → List Bytes
unfolding clip cell
row_cells [] row = []
row_cells (c ∷ columns) [] = clip (cell null) 40 ∷ row_cells columns []
row_cells (c ∷ columns) (v ∷ row) = clip (cell v) 40 ∷ row_cells columns row

-- Every column becomes as wide as its cell.
unfoldable pub widen : List ℕ → List Bytes → List ℕ
widen [] cells = []
widen (w ∷ widths) [] = w ∷ widths
widen (w ∷ widths) (c ∷ cells) = (if ltb w (length c) then length c else w) ∷ widen widths cells

-- The loop over the rows: the widths at its end, and all cells.
unfoldable pub layout : List Bytes → List ℕ → List (List Cell) → List ℕ × List (List Bytes)
unfolding row_cells widen
layout columns widths [] = (widths, [])
layout columns widths (row ∷ rows) =
    let cells = row_cells columns row in
    let (final, rest) = layout columns (widen widths cells) rows in (final, cells ∷ rest)

pad_cells : List Bytes → List ℕ → List Bytes
unfolding pad_right
pad_cells [] widths = []
pad_cells (c ∷ cells) [] = c ∷ pad_cells cells []
pad_cells (c ∷ cells) (w ∷ widths) = pad_right w c ∷ pad_cells cells widths

-- The line that `printCells` prints.
unfoldable pub cells_line : List Bytes → List ℕ → Bytes
unfolding pad_cells join
cells_line cells widths = join (pad_cells cells widths) (codes " | ")

-- The lines of the table itself: its head, a rule, and the rows that are shown.
unfoldable pub table_lines : Rows → List Bytes
unfolding layout cells_line repeat
table_lines res =
    let columns = map encode res.columns in
    let (widths, rows) = layout columns (map length columns) res.rows in
    cells_line columns widths
    ∷ cells_line (map (repeat b'-') widths) widths
    ∷ map (λ cells. cells_line cells widths) (take max_display_rows rows)

unfoldable pub print_lines : List Bytes → Bytes
print_lines [] = []
print_lines (line ∷ lines) = line ++ b'\n' ∷ print_lines lines

row_summary : ℕ → Bytes
unfolding decimal
row_summary n =
    codes "("
    ++ decimal n
    ++ codes " rows"
    ++ (if ltb max_display_rows n then codes ", showing first " ++ decimal max_display_rows else [])
    ++ codes ")"

unfoldable pub print_table : Rows → Bytes
unfolding table_lines print_lines row_summary encode
print_table res =
    if is_nil res.columns
    then print_lines (codes "(no columns returned)" ∷ [])
    else print_lines ([] ∷ table_lines res ++ row_summary (length res.rows) ∷ [])

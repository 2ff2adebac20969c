-- ===== src/Cli/Table/Aligned.antt =====
-- The lines of a printed table.
use querylynx.Base.{
  ℕ, zero, suc, ◌+◌, ◌≤◌, ◌<◌, List, [], ◌∷◌, ◌++◌, map, length, take, All, All-map, ◌≡◌, refl,
  arith,
}
use querylynx.Strings.{codes, join, join_rest}
use querylynx.Utf8.{Bytes, encode, rune_count, count_from}
use querylynx.Utf8.Count.{IsApart, rune_count-append}
use querylynx.Connector.{Cell, Rows}
use querylynx.Cli.Format.{repeat, pad_right, length-repeat, rune_count-pad_right}
use querylynx.Cli.Table.{
  row_cells, widen, layout, pad_cells, cells_line, table_lines, max_display_rows,
}

-- One cell for each width, and none longer than its width.
abbrev pub Fits : List Bytes → List ℕ → Type 0
Fits [] [] = Unit
Fits [] (w ∷ widths) = 0 < 0
Fits (c ∷ cells) [] = 0 < 0
Fits (c ∷ cells) (w ∷ widths) = (length c ≤ w) × Fits cells widths

-- The columns' widths, with the three runes of " | " between two of them.
abbrev pub line_width_rest : List ℕ → ℕ
line_width_rest [] = 0
line_width_rest (w ∷ widths) = 3 + (w + line_width_rest widths)

abbrev pub line_width : List ℕ → ℕ
line_width [] = 0
line_width (w ∷ widths) = w + line_width_rest widths

join_rest-IsApart : (cells : List Bytes) → IsApart (join_rest (codes " | ") cells)
join_rest-IsApart [] = omega arith
join_rest-IsApart (c ∷ cells) = omega arith

rune_count-cell :
    (c : Bytes) (w : ℕ) (cells : List Bytes) (n : ℕ)
    → length c ≤ w
    → rune_count (join_rest (codes " | ") cells) ≡ n
    → rune_count (pad_right w c ++ join_rest (codes " | ") cells) ≡ w + n
rune_count-cell c w cells n h e = omega (
  arith,
  rune_count-append (pad_right w c) (join_rest (codes " | ") cells) (join_rest-IsApart cells),
  rune_count-pad_right w c h,
)

rune_count-separator : (s : Bytes) → rune_count (codes " | " ++ s) ≡ 3 + rune_count s
unfolding rune_count count_from
rune_count-separator s = omega arith

rune_count-join_rest :
    (cells : List Bytes) (widths : List ℕ)
    → Fits cells widths
    → rune_count (join_rest (codes " | ") (pad_cells cells widths)) ≡ line_width_rest widths
unfolding pad_cells
rune_count-join_rest [] [] h = unfold rune_count count_from in refl
rune_count-join_rest [] (w ∷ widths) h = absurd (omega arith)
rune_count-join_rest (c ∷ cells) [] h = absurd (omega arith)
rune_count-join_rest (c ∷ cells) (w ∷ widths) (hc, hs) = omega (
  arith,
  rune_count-separator (pad_right w c ++ join_rest (codes " | ") (pad_cells cells widths)),
  rune_count-cell c w (pad_cells cells widths) (line_width_rest widths) hc
      (rune_count-join_rest cells widths hs),
)

rune_count-cells_line :
    (cells : List Bytes) (widths : List ℕ)
    → Fits cells widths
    → rune_count (cells_line cells widths) ≡ line_width widths
unfolding cells_line pad_cells join
rune_count-cells_line [] [] h = unfold rune_count count_from in refl
rune_count-cells_line [] (w ∷ widths) h = absurd (omega arith)
rune_count-cells_line (c ∷ cells) [] h = absurd (omega arith)
rune_count-cells_line (c ∷ cells) (w ∷ widths) (hc, hs) =
    rune_count-cell c w (pad_cells cells widths) (line_width_rest widths) hc
      (rune_count-join_rest cells widths hs)

widen_keeps :
    (cells cells' : List Bytes) (widths : List ℕ)
    → Fits cells widths
    → Fits cells (widen widths cells')
unfolding widen
widen_keeps [] cells' [] h = tt
widen_keeps [] cells' (w ∷ widths) h = absurd (omega arith)
widen_keeps (c ∷ cells) cells' [] h = absurd (omega arith)
widen_keeps (c ∷ cells) [] (w ∷ widths) h = h
widen_keeps (c ∷ cells) (c' ∷ cells') (w ∷ widths) (hc, hs) =
    (ground arith, widen_keeps cells cells' widths hs)

widen-Fits :
    (widths : List ℕ) (columns : List Bytes) (row : List Cell)
    → length widths ≡ length columns
    → Fits (row_cells columns row) (widen widths (row_cells columns row))
unfolding widen row_cells
widen-Fits [] [] row h = tt
widen-Fits [] (c ∷ columns) row h = absurd (omega arith)
widen-Fits (w ∷ widths) [] row h = absurd (omega arith)
widen-Fits (w ∷ widths) (c ∷ columns) [] h =
    (ground arith, widen-Fits widths columns [] (omega arith))
widen-Fits (w ∷ widths) (c ∷ columns) (v ∷ row) h =
    (ground arith, widen-Fits widths columns row (omega arith))

length-widen : (widths : List ℕ) (cells : List Bytes) → length (widen widths cells) ≡ length widths
unfolding widen
length-widen [] cells = refl
length-widen (w ∷ widths) [] = refl
length-widen (w ∷ widths) (c ∷ cells) = omega (arith, length-widen widths cells)

layout_keeps :
    (columns cells : List Bytes) (widths : List ℕ) (rows : List (List Cell))
    → Fits cells widths
    → Fits cells (layout columns widths rows).0
unfolding layout
layout_keeps columns cells widths [] h = h
layout_keeps columns cells widths (row ∷ rows) h =
    layout_keeps columns cells (widen widths (row_cells columns row)) rows
      (widen_keeps cells (row_cells columns row) widths h)

layout-Fits :
    (columns : List Bytes) (widths : List ℕ) (rows : List (List Cell))
    → length widths ≡ length columns
    → All (λ cells. Fits cells (layout columns widths rows).0) (layout columns widths rows).1
unfolding layout
layout-Fits columns widths [] h = tt
layout-Fits columns widths (row ∷ rows) h = (
  layout_keeps columns (row_cells columns row) (widen widths (row_cells columns row)) rows
      (widen-Fits widths columns row h),
  layout-Fits columns (widen widths (row_cells columns row)) rows
      (omega (arith, length-widen widths (row_cells columns row))),
)

columns-Fits : (columns : List Bytes) → Fits columns (map length columns)
columns-Fits [] = tt
columns-Fits (c ∷ columns) = (omega arith, columns-Fits columns)

rule-Fits : (widths : List ℕ) → Fits (map (repeat b'-') widths) widths
rule-Fits [] = tt
rule-Fits (w ∷ widths) = (omega (arith, length-repeat b'-' w), rule-Fits widths)

All-mapped {ℓ κ μ} :
    {A : Type ℓ} {B : Type κ} (P : B → Type μ) (f : A → B) (xs : List A)
    → All (λ x. P (f x)) xs
    → All P (map f xs)
All-mapped P f [] h = tt
All-mapped P f (x ∷ xs) (hx, hs) = (hx, All-mapped P f xs hs)

-- A head, a rule and at most fifty rows, all of them equally wide.
abbrev pub IsTable : List Bytes → Type 0
IsTable lines =
    ((width : ℕ) × All (λ line. rune_count line ≡ width) lines)
    × (length lines ≤ 2 + max_display_rows)

take-All {ℓ κ} : {A : Type ℓ} (P : A → Type κ) (n : ℕ) (xs : List A) → All P xs → All P (take n xs)
take-All P zero xs h = tt
take-All P (suc n) [] h = tt
take-All P (suc n) (x ∷ xs) (hx, hs) = (hx, take-All P n xs hs)

length-take_le {ℓ} : {A : Type ℓ} (n : ℕ) (xs : List A) → length (take n xs) ≤ n
length-take_le zero xs = omega arith
length-take_le (suc n) [] = omega arith
length-take_le (suc n) (x ∷ xs) = omega (arith, length-take_le n xs)

length-map {ℓ κ} :
    {A : Type ℓ} {B : Type κ} (f : A → B) (xs : List A) → length (map f xs) ≡ length xs
length-map f [] = refl
length-map f (x ∷ xs) = omega (arith, length-map f xs)

-- The printed lines of a result's table are equally wide, counted as Go counts runes, also where
-- `clip` cut a rune in two; and there are at most fifty rows of them under the head and the rule.
pub table_lines-IsTable : (res : Rows) → IsTable (table_lines res)
unfolding table_lines
table_lines-IsTable res = (
  (line_width widths, (of_line columns here, (of_line rule (rule-Fits widths), all_rows))),
  omega (arith, length-map line (take max_display_rows rows), length-take_le max_display_rows rows),
)
  where
    columns : List Bytes
    columns = map encode res.columns

    widths : List ℕ
    widths = (layout columns (map length columns) res.rows).0

    rows : List (List Bytes)
    rows = (layout columns (map length columns) res.rows).1

    rule : List Bytes
    rule = map (repeat b'-') widths

    line : List Bytes → Bytes
    line cells = cells_line cells widths

    of_line : (cells : List Bytes) → Fits cells widths → rune_count (line cells) ≡ line_width widths
    of_line cells h = rune_count-cells_line cells widths h

    here : Fits columns widths
    here = layout_keeps columns columns (map length columns) res.rows (columns-Fits columns)

    all_rows : All (λ l. rune_count l ≡ line_width widths) (map line (take max_display_rows rows))
    all_rows = All-mapped _ line _ (
        All-map _ _ _ of_line (
          take-All _ max_display_rows rows
            (layout-Fits columns (map length columns) res.rows (length-map length columns))))

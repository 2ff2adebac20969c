-- ===== src/Postgres/Session/Reading.antt =====
-- internal/connector/postgres/postgres.go: what `Execute` makes of the answer to its query.
use querylynx.Base.{
  Option, none, some, List, [], ◌∷◌, ◌++◌, ◌≡◌, refl, sym, ap, ◌∙◌, arith, append_assoc, append-nil,
  Result, ok, err,
}
use querylynx.Strings.{Text, codes}
use querylynx.Connector.{Cell, Rows}
use querylynx.Postgres.Session.{Value, Fetched, fetched, normalize_row, ended_well, read_rows}

-- The rows that were read, each normalised.
unfoldable pub normalized : List (List Value) → List (List Cell)
normalized [] = []
normalized (r ∷ rows) = normalize_row r ∷ normalized rows

unfoldable pub all_read : List (List Value) → List (Result Text (List Value))
all_read [] = []
all_read (r ∷ rows) = ok r ∷ all_read rows

read_rows-all :
    (columns : List Text) (before : List (List Cell)) (rows : List (List Value))
    → read_rows columns none before (all_read rows)
      ≡ ok (record { columns = columns; rows = before ++ normalized rows })
unfolding read_rows all_read normalized ended_well
read_rows-all columns before [] = rw append-nil
read_rows-all columns before (r ∷ rows) =
    rw (read_rows-all columns (before ++ normalize_row r ∷ []) rows, append_assoc)

-- The answer came whole: each row was read, and no error came at the end.
abbrev pub IsWhole : Fetched → List (List Value) → Type 0
IsWhole f vals = (f.ended ≡ none) × (f.rows ≡ all_read vals)

-- The result of a query, by its answer: the error of a query that failed; every row of an answer that
-- came whole, normalised and in order; and an error for any other answer.
abbrev pub Answers : Result Text Fetched → Result Text Rows → Type 0
Answers (err e) res = res ≡ err (codes "postgres: execute: " ++ e)
Answers (ok f) (ok out) =
    (vals : List (List Value)) × IsWhole f vals
    × (out ≡ record { columns = f.columns; rows = normalized vals })
Answers (ok f) (err e) = (vals : List (List Value)) → IsWhole f vals → ⊥

-- Rows that were read are all there.
abbrev Reads :
    List Text → Option Text → List (List Cell) → List (Result Text (List Value)) → Rows → Type 0
Reads columns ended before rows out =
    (vals : List (List Value)) × (ended ≡ none)
    × (rows ≡ all_read vals)
    × (out ≡ record { columns = columns; rows = before ++ normalized vals })

read_rows-Reads :
    (columns : List Text) (ended : Option Text) (before : List (List Cell))
    (rows : List (Result Text (List Value))) (out : Rows)
    → read_rows columns ended before rows ≡ ok out
    → Reads columns ended before rows out
unfolding read_rows ended_well all_read normalized
read_rows-Reads columns none before [] out h =
    let same : record { columns = columns; rows = before } ≡ out = cc in
    ([], refl, refl, rw append-nil (sym same))
read_rows-Reads columns (some e) before [] out h = absurd (ground arith)
read_rows-Reads columns ended before (err e ∷ rows) out h = absurd (ground arith)
read_rows-Reads columns ended before (ok r ∷ rows) out h =
    let (vals, well, same, read) =
      read_rows-Reads columns ended (before ++ normalize_row r ∷ []) rows out h in
    (
      r ∷ vals,
      well,
      ap (λ t. ok r ∷ t) same,
      read
          ∙ ap (λ t. record { columns = columns; rows = t })
              (append_assoc before (normalize_row r ∷ []) (normalized vals)),
    )

ok-ne-err : (a : Rows) (e : Text) (r : Result Text Rows) → r ≡ ok a → r ≡ err e → ⊥
ok-ne-err a e r h g = ground arith

whole-Answers :
    (f : Fetched) (res : Result Text Rows)
    → read_rows f.columns f.ended [] f.rows ≡ res
    → Answers (ok f) res
whole-Answers f (ok out) h =
    let (vals, well, same, read) = read_rows-Reads f.columns f.ended [] f.rows out h in
    (vals, (well, same), read)
whole-Answers f (err e) h = λ vals (well, same).
    ok-ne-err (record { columns = f.columns; rows = normalized vals }) e
      (read_rows f.columns f.ended [] f.rows) (rw (well, same) (read_rows-all f.columns [] vals)) h

pub fetched-Answers : (answer : Result Text Fetched) → Answers answer (fetched answer)
unfolding fetched
fetched-Answers (err e) = refl
fetched-Answers (ok f) = whole-Answers f (read_rows f.columns f.ended [] f.rows) refl

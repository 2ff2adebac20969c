-- ===== src/Postgres/Catalog.antt =====
-- internal/connector/postgres/postgres.go: what the catalog's queries return, and the loops over their rows.
use querylynx.Base.{Option, none, some, List, [], ◌∷◌, ◌++◌, Result, ok, err}
use querylynx.Base.Int.{ℤ}
use querylynx.Strings.{Text}
use querylynx.Context.{Context}
use querylynx.Schema.{Column, ForeignKey}

-- The rows of a catalog query: each row, or the error on scanning it, and the error at the end.
pub record Listing (A : Type 0) : Type 0 where
  pub rows : List (Result Text A)
  pub ended : Option Text

pub record ColumnRow : Type 0 where
  pub table : Text
  pub column : Column

pub record KeyRow : Type 0 where
  pub table : Text
  pub key : ForeignKey

pub record Catalog (W : Type 0) : Type 0 where
  pub current_database : Context → W → Result Text Text × W
  pub columns : Context → W → Result Text (Listing ColumnRow) × W
  pub foreign_keys : Context → W → Result Text (Listing KeyRow) × W
  pub count : Context → Text → W → Result Text ℤ × W
  pub samples : Context → Text → Text → W → Result Text (Listing Text) × W

unfoldable pub at_end : {A : Type 0} → Text → A → Option Text → Result Text A
at_end what a none = ok a
at_end what a (some e) = err (what ++ e)

-- A loop over scanned rows, with the texts that the errors are wrapped in.
unfoldable pub scan_rows :
    {A S : Type 0}
    → Text
    → Text
    → (A → S → S)
    → Option Text
    → S
    → List (Result Text A)
    → Result Text S
unfolding at_end
scan_rows scan iterate step ended s [] = at_end iterate s ended
scan_rows scan iterate step ended s (err e ∷ rows) = err (scan ++ e)
scan_rows scan iterate step ended s (ok a ∷ rows) =
    scan_rows scan iterate step ended (step a s) rows

unfoldable pub listed :
    {A S : Type 0} → Text → Text → Text → (A → S → S) → S → Result Text (Listing A) → Result Text S
unfolding scan_rows
listed query scan iterate step s (err e) = err (query ++ e)
listed query scan iterate step s (ok l) = scan_rows scan iterate step l.ended s l.rows

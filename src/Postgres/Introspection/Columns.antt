-- ===== src/Postgres/Introspection/Columns.antt =====
-- `introspectColumns`: the rows of the catalog, grouped by table.
use querylynx.Base.{
  ℕ, zero, suc, Bool, true, false, Option, none, some, List, [], ◌∷◌, ◌++◌, ◌≡◌, refl, arith,
  length, if◌then◌else◌, Bool-cases, inl, inr, append-nil,
}
use querylynx.Strings.{Text, text_eq}
use querylynx.Strings.Equal.{text_eq-eq, text_eq_refl}
use querylynx.Strings.Names.{contains}
use querylynx.Schema.{Column, Table, table_names}
use querylynx.Postgres.Catalog.{ColumnRow}
use querylynx.Postgres.Introspection.{modify_at, new_table, with_column}

next_position : Option ℕ → Option ℕ
next_position none = none
next_position (some i) = some (suc i)

-- Where the first table of a name stands.
unfoldable pub position_of : Text → List Table → Option ℕ
unfolding next_position
position_of name [] = none
position_of name (t ∷ ts) =
    let rest = position_of name ts in if text_eq t.name name then some zero else next_position rest

-- The columns of the first table of a name.
unfoldable pub columns_of : Text → List Table → List Column
columns_of name [] = []
columns_of name (t ∷ ts) =
    let rest = columns_of name ts in if text_eq t.name name then t.columns else rest

-- The columns that rows list for a table, in their order.
unfoldable pub listed_columns : Text → List ColumnRow → List Column
listed_columns name [] = []
listed_columns name (r ∷ rows) =
    let rest = listed_columns name rows in if text_eq r.table name then r.column ∷ rest else rest

-- What the position says of the first table.
NextSays : Option ℕ → Bool → Option ℕ → Type 0
NextSays none here rest = (here ≡ false) × (rest ≡ none)
NextSays (some zero) here rest = here ≡ true
NextSays (some (suc i)) here rest = (here ≡ false) × (rest ≡ some i)

next_position-NextSays :
    (here : Bool) (rest o : Option ℕ)
    → (if here then some zero else next_position rest) ≡ o
    → NextSays o here rest
unfolding next_position NextSays
next_position-NextSays true rest none e = cc
next_position-NextSays true rest (some zero) e = refl
next_position-NextSays true rest (some (suc i)) e = absurd (ground arith)
next_position-NextSays false none none e = (refl, refl)
next_position-NextSays false (some j) none e = cc
next_position-NextSays false none (some i) e = cc
next_position-NextSays false (some j) (some zero) e = absurd (ground arith)
next_position-NextSays false (some j) (some (suc i)) e = (refl, ground arith)

-- A column more for one table.
abbrev pub column_for : Text → Text → Column → List Column
column_for name u c = if text_eq name u then c ∷ [] else []

pub columns_of-append :
    (u name : Text) (c : Column) (ts : List Table)
    → position_of name ts ≡ none
    → columns_of u (modify_at (length ts) (with_column c) (ts ++ new_table name ∷ []))
      ≡ columns_of u ts ++ column_for name u c
unfolding columns_of modify_at position_of NextSays
columns_of-append u name c [] e = ground arith
columns_of-append u name c (t ∷ ts) e =
    let (other, missing) =
      next_position-NextSays (text_eq t.name name) (position_of name ts) none e in
    elim (Bool-cases (text_eq t.name u)) [
      | inl h ↦
          let same = text_eq-eq t.name u h in
          let away : text_eq name u ≡ false =
            ground (arith, text_eq-eq name u, text_eq_refl name) in
          rw (h, away, append-nil)
      | inr h ↦ rw (h, columns_of-append u name c ts missing)
    ]

pub columns_of-modify_at :
    (u name : Text) (c : Column) (i : ℕ) (ts : List Table)
    → position_of name ts ≡ some i
    → columns_of u (modify_at i (with_column c) ts) ≡ columns_of u ts ++ column_for name u c
unfolding columns_of modify_at position_of NextSays
columns_of-modify_at u name c i [] e = cc
columns_of-modify_at u name c zero (t ∷ ts) e =
    let here = next_position-NextSays (text_eq t.name name) (position_of name ts) (some zero) e in
    let same = text_eq-eq t.name name here in
    elim (Bool-cases (text_eq name u)) [ inl h ↦ rw (same, h) | inr h ↦ rw (same, h, append-nil) ]
columns_of-modify_at u name c (suc i) (t ∷ ts) e =
    let (other, there) =
      next_position-NextSays (text_eq t.name name) (position_of name ts) (some (suc i)) e in
    elim (Bool-cases (text_eq t.name u)) [
      | inl h ↦
          let same = text_eq-eq t.name u h in
          let away : text_eq name u ≡ false =
            ground (arith, text_eq-eq name u, text_eq_refl name) in
          rw (h, away, append-nil)
      | inr h ↦ rw (h, columns_of-modify_at u name c i ts there)
    ]

pub position_of-modify_at :
    (u : Text) (c : Column) (i : ℕ) (ts : List Table)
    → position_of u (modify_at i (with_column c) ts) ≡ position_of u ts
unfolding modify_at position_of
position_of-modify_at u c i [] = refl
position_of-modify_at u c zero (t ∷ ts) = refl
position_of-modify_at u c (suc i) (t ∷ ts) = rw (position_of-modify_at u c i ts)

pub table_names-modify_at :
    (c : Column) (i : ℕ) (ts : List Table)
    → table_names (modify_at i (with_column c) ts) ≡ table_names ts
unfolding modify_at
table_names-modify_at c i [] = refl
table_names-modify_at c zero (t ∷ ts) = refl
table_names-modify_at c (suc i) (t ∷ ts) = rw (table_names-modify_at c i ts)

pub position_of-append :
    (u name : Text) (ts : List Table)
    → position_of name ts ≡ none
    → position_of u (ts ++ new_table name ∷ [])
      ≡ (if text_eq name u then some (length ts) else position_of u ts)
unfolding position_of next_position NextSays
position_of-append u name [] e = refl
position_of-append u name (t ∷ ts) e =
    let (other, missing) =
      next_position-NextSays (text_eq t.name name) (position_of name ts) none e in
    let ih = position_of-append u name ts missing in
    elim (Bool-cases (text_eq t.name u)) [
      | inl h ↦
          let same = text_eq-eq t.name u h in
          let away : text_eq name u ≡ false =
            ground (arith, text_eq-eq name u, text_eq_refl name) in
          rw (h, away)
      | inr h ↦ rw (h, ih) (ground arith)
    ]

pub position_of-contains :
    (u : Text) (ts : List Table) → position_of u ts ≡ none → contains (table_names ts) u ≡ false
unfolding position_of contains NextSays
position_of-contains u [] e = refl
position_of-contains u (t ∷ ts) e =
    let (other, missing) = next_position-NextSays (text_eq t.name u) (position_of u ts) none e in
    rw (other, position_of-contains u ts missing)

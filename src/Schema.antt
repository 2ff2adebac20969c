-- ===== src/Schema.antt =====
-- internal/schema/schema.go: the dialect-neutral description of a database.
use querylynx.Base.{Bool, List, map}
use querylynx.Base.Int.{ℤ}
use querylynx.Strings.{Text}

pub record Column : Type 0 where
  pub name : Text
  pub data_type : Text
  pub nullable : Bool
  pub sample_values : List Text

pub record ForeignKey : Type 0 where
  pub column : Text
  pub ref_table : Text
  pub ref_column : Text

pub record Table : Type 0 where
  pub name : Text
  pub columns : List Column
  pub row_count : ℤ
  pub foreign_keys : List ForeignKey

pub record Schema : Type 0 where
  pub database_name : Text
  pub tables : List Table

abbrev pub table_names : List Table → List Text
table_names = map (λ t. t.name)

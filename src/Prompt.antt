-- ===== src/Prompt.antt =====
-- internal/prompt/schema.go: the text of a schema, and the part of a schema that was routed.
pub mod Subset
use querylynx.Base.{
  ℕ, suc, Bool, true, false, Option, none, some, List, [], ◌∷◌, ◌++◌, if◌then◌else◌, is_nil, not,
}
use querylynx.Base.Int.{ℤ, pos, negsuc}
use querylynx.Strings.{Text, codes, print_int, join}
use querylynx.Dict.{Dict, get, put, flag}
use querylynx.Schema.{Schema, Table, Column, ForeignKey}

-- `fkByCol`: the last foreign key of a column is the one kept.
fk_by_col : List ForeignKey → Dict ForeignKey → Dict ForeignKey
fk_by_col [] m = m
fk_by_col (fk ∷ fks) m = fk_by_col fks (put fk.column fk m)

null_part : Bool → Text
null_part true = codes " NULL"
null_part false = []

target_part : Option ForeignKey → Text
target_part none = []
target_part (some fk) = codes " -> " ++ (fk.ref_table ++ (codes "." ++ fk.ref_column))

samples_part : List Text → Text
samples_part [] = []
samples_part (v ∷ vs) = codes " [e.g. " ++ (join (v ∷ vs) (codes ", ") ++ codes "]")

unfoldable pub column_line : Dict ForeignKey → Column → Text
unfolding null_part target_part samples_part
column_line fks c =
    codes "  - "
    ++ (c.name
        ++ (codes " "
            ++ (c.data_type
                ++ (null_part c.nullable
                    ++ (target_part (get c.name fks)
                        ++ (samples_part c.sample_values ++ codes "\n"))))))

column_lines : Dict ForeignKey → List Column → Text
column_lines fks [] = []
column_lines fks (c ∷ cs) = column_line fks c ++ column_lines fks cs

unfoldable pub table_text : Table → Text
unfolding column_lines fk_by_col
table_text t =
    codes "Table "
    ++ (t.name
        ++ (codes " ("
            ++ (print_int t.row_count
                ++ (codes " rows):\n" ++ column_lines (fk_by_col t.foreign_keys []) t.columns))))

tables_text : List Table → Text
tables_text [] = []
tables_text (t ∷ ts) = table_text t ++ tables_text ts

unfoldable pub schema : Schema → Text
unfolding tables_text
schema s = tables_text s.tables

-- The loop of `Subset` that fills `keep`, and the one that reads it.
keep_names : List Text → Dict Bool → Dict Bool
keep_names [] keep = keep
keep_names (n ∷ names) keep = keep_names names (put n true keep)

kept_tables : Dict Bool → List Table → List Table
kept_tables keep [] = []
kept_tables keep (t ∷ ts) =
    let rest = kept_tables keep ts in if flag t.name keep then t ∷ rest else rest

unfoldable pub subset : Schema → List Text → Schema
unfolding keep_names kept_tables
subset s names = record {
  database_name = s.database_name;
  tables = kept_tables (keep_names names []) s.tables;
}

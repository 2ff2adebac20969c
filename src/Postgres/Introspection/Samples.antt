-- ===== src/Postgres/Introspection/Samples.antt =====
-- `sampleValues`: which values of a column are kept.
use querylynx.Base.{
  ℕ, zero, suc, ◌≤◌, ◌<◌, Option, none, some, List, [], ◌∷◌, ◌++◌, ◌≡◌, refl, sym, ap, ◌∙◌, arith,
  length, ltb, Bool-cases, inl, inr, Result, ok, err, append_assoc, append-nil, take,
}
use querylynx.Strings.{Text, codes}
use querylynx.Context.{Context}
use querylynx.Postgres.Catalog.{Catalog, Listing, scan_rows, at_end, listed}
use querylynx.Postgres.Introspection.{append_value, of_column, few_samples, sample_values}
use querylynx.Postgres.Introspection.Grouping.{all_scanned, Listed}

scan_rows-append_value :
    (scan iterate : Text) (ended : Option Text) (vals out : List Text)
    (rows : List (Result Text Text))
    → scan_rows scan iterate append_value ended vals rows ≡ ok out
    → (found : List Text) × (rows ≡ all_scanned found) × (out ≡ vals ++ found)
unfolding scan_rows at_end all_scanned append_value
scan_rows-append_value scan iterate none vals out [] e =
    let same : vals ≡ out = ground arith in ([], refl, sym same ∙ sym (append-nil vals))
scan_rows-append_value scan iterate (some why) vals out [] e = absurd (ground arith)
scan_rows-append_value scan iterate ended vals out (err why ∷ rows) e = absurd (ground arith)
scan_rows-append_value scan iterate ended vals out (ok v ∷ rows) e =
    let (found, same, all) =
      scan_rows-append_value scan iterate ended (vals ++ v ∷ []) out rows e in
    (v ∷ found, ap (λ more. ok v ∷ more) same, all ∙ append_assoc vals (v ∷ []) found)

listed-append_value :
    (query scan iterate : Text) (l : Result Text (Listing Text)) (out : List Text)
    → listed query scan iterate append_value [] l ≡ ok out
    → Listed l out
unfolding listed
listed-append_value query scan iterate (err e) out h = absurd (ground arith)
listed-append_value query scan iterate (ok l) out h =
    let (found, same, all) = scan_rows-append_value scan iterate l.ended [] out l.rows h in
    same ∙ ap all_scanned (sym all)

-- The values that are kept of those found.
abbrev pub KeepsFew : List Text → List Text → Type 0
KeepsFew found vals =
    (50 < length found → vals ≡ []) × (length found ≤ 50 → vals ≡ take 5 found) × (length vals ≤ 5)

take-few : (n : ℕ) (vs : List Text) → length vs ≤ n → take n vs ≡ vs
take-few zero [] h = refl
take-few zero (v ∷ vs) h = absurd (omega arith)
take-few (suc n) [] h = refl
take-few (suc n) (v ∷ vs) h = ap (λ t. v ∷ t) (take-few n vs (omega arith))

length-take_le : (n : ℕ) (vs : List Text) → length (take n vs) ≤ n
length-take_le zero vs = omega arith
length-take_le (suc n) [] = omega arith
length-take_le (suc n) (v ∷ vs) = omega (arith, length-take_le n vs)

few_samples-KeepsFew :
    (found vals : List Text) → few_samples (ok found) ≡ ok vals → KeepsFew found vals
unfolding few_samples
few_samples-KeepsFew found vals e = elim (Bool-cases (ltb 50 (length found))) [
  | inl many ↦
      let none_kept : vals ≡ [] = ground arith in
      (λ h. none_kept, λ h. absurd (ground arith), rw none_kept (omega arith))
  | inr fine ↦ elim (Bool-cases (ltb 5 (length found))) [
    | inl more ↦
        let first_kept : vals ≡ take 5 found = ground arith in
        (λ h. absurd (ground arith), λ h. first_kept, rw first_kept (length-take_le 5 found))
    | inr all ↦
        let all_kept : vals ≡ found = ground arith in
        let few : length found ≤ 5 = ground arith in
        (λ h. absurd (ground arith), λ h. all_kept ∙ sym (take-few 5 found few), rw all_kept few)
  ]
]

few_samples-ok :
    (r : Result Text (List Text)) (vals : List Text)
    → few_samples r ≡ ok vals
    → (found : List Text) × (r ≡ ok found) × KeepsFew found vals
few_samples-ok (err e) vals h = absurd (unfold few_samples in ground arith)
few_samples-ok (ok found) vals h = (found, refl, few_samples-KeepsFew found vals h)

-- If `sampleValues` returns no error, the query's values were all scanned without one, and then none is
-- kept if there are more than 50, else the first five; so at most five in any case.
pub sample_values-KeepsFew :
    {W : Type 0} (catalog : Catalog W) (ctx : Context) (table column : Text) (w : W)
    {vals : List Text}
    → (sample_values catalog ctx table column w).0 ≡ ok vals
    → (found : List Text) × Listed (catalog.samples ctx table column w).0 found
      × KeepsFew found vals
unfolding sample_values
sample_values-KeepsFew catalog ctx table column w {vals} h =
    let (found, same, kept) = few_samples-ok _ vals h in
    (
      found,
      listed-append_value (codes "postgres: sample " ++ of_column table column)
          (codes "postgres: scan sample " ++ of_column table column) []
          (catalog.samples ctx table column w).0 found same,
      kept,
    )

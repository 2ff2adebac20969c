-- ===== src/Rag/Route.antt =====
-- `Route` and `parseTableList`.
use querylynx.Base.{
  true, false, some, List, [], ◌∷◌, ◌++◌, ◌≡◌, ◌≢◌, ◌⊎◌, refl, ◌∙◌, arith, is_nil, subst,
  Bool-cases, Result-cases, inl, inr, All, append_assoc, Result, ok, err,
}
use querylynx.Strings.{Text, codes, index, last_index}
use querylynx.Strings.Index.{Lacks, index-append, last_index-append}
use querylynx.Json.{unmarshal_strings}
use querylynx.Json.Plain.{IsPlain, array, array-brackets, unmarshal_strings-array}
use querylynx.Strings.Names.{contains, contains_self, contains-All}
use querylynx.Context.{Context}
use querylynx.Schema.{Schema, Table, table_names}
use querylynx.Prompt.{subset}
use querylynx.Prompt.Subset.{subset-ne-nil}
use querylynx.Rag.{
  Provider, RouteError, filter_known, all_table_names, choose_names, usable_names, routed, route,
  routing_prompt, from_bracket, array_part, unmarshalled, no_tables, generate_failed,
  parse_table_list,
}
use querylynx.Rag.Unreadable.{Unreadable, parse_table_list-Unreadable}
use querylynx.Rag.Known.{filter_known_sound}

names_filled : (ts : List Table) → is_nil ts ≡ false → is_nil (table_names ts) ≡ false
names_filled [] h = h
names_filled (t ∷ ts) h = refl

-- Names that route to something: there is one, each is the name of a table, and the part of the
-- schema that they select has a table.
pub record IsRoute (s : Schema) (names : List Text) : Type 0 where
  pub some_name : names ≢ []
  pub are_tables : All (λ n. contains (table_names s.tables) n ≡ true) names
  pub some_table : (subset s names).tables ≢ []

AreTables-IsRoute :
    (s : Schema) (names : List Text)
    → is_nil names ≡ false
    → All (λ n. contains (table_names s.tables) n ≡ true) names
    → IsRoute s names
AreTables-IsRoute s [] h a = absurd (ground arith)
AreTables-IsRoute s (n ∷ names) h a = record {
  some_name = λ e. ground arith;
  are_tables = a;
  some_table = subset-ne-nil s (n ∷ names) n a.0 (contains_self [] names n);
}

choose_names-IsRoute :
    (names : List Text) (s : Schema) {out : List Text}
    → is_nil s.tables ≡ false
    → choose_names names s ≡ ok out
    → IsRoute s out
unfolding choose_names all_table_names
choose_names-IsRoute names s {out} h e = elim (Bool-cases (is_nil (filter_known names s))) [
  | inl nothing ↦
      let same : table_names s.tables ≡ out = cc (rw nothing at e) in
      subst (IsRoute s) same (all-IsRoute s.tables h)
  | inr something ↦
      let same : filter_known names s ≡ out = cc (rw something at e) in
      subst (IsRoute s) same
        (AreTables-IsRoute s (filter_known names s) something (filter_known_sound names s).0)
]
  where
    all-IsRoute : (ts : List Table) → is_nil s.tables ≡ false → IsRoute s (table_names s.tables)
    all-IsRoute ts g =
        AreTables-IsRoute s (table_names s.tables) (names_filled s.tables g)
          (contains-All [] (table_names s.tables))

routed-IsRoute :
    (s : Schema) (reply : Result Text Text) {out : List Text}
    → is_nil s.tables ≡ false
    → routed s reply ≡ ok out
    → IsRoute s out
unfolding routed usable_names
routed-IsRoute s (err e) h q = absurd (ground arith)
routed-IsRoute s (ok resp) h q = elim (Result-cases (parse_table_list resp)) [
  | inl (names, e) ↦ choose_names-IsRoute names s h (rw e at q)
  | inr (why, e) ↦ absurd (ground arith)
]

-- Whatever the model answers, the names of a successful routing are names of tables, there is at least
-- one, and the part of the schema that they select is not empty.
pub route-IsRoute :
    {W : Type 0} (llm : Provider W) (ctx : Context) (w : W) (question : Text) (s : Schema)
    {out : List Text}
    → (route llm ctx w question s).0 ≡ ok out
    → IsRoute s out
unfolding route
route-IsRoute llm ctx w question s e = elim (Bool-cases (is_nil s.tables)) [
  | inl none_there ↦ absurd (ground arith)
  | inr there ↦
      routed-IsRoute s (llm.generate ctx w (routing_prompt question s)).0 there (rw there at e)
]

choose_names-ok :
    (names : List Text) (s : Schema) (why : RouteError) → choose_names names s ≡ err why → ⊥
unfolding choose_names
choose_names-ok names s why e = ground arith

-- Why a call that was made fails to route.
abbrev pub CallFails : Result Text Text → RouteError → Type 0
CallFails reply why =
    ((e : Text) × (reply ≡ err e) × (why ≡ generate_failed e))
    ⊎ ((resp : Text) × (reply ≡ ok resp) × Unreadable resp why)

routed-CallFails :
    (s : Schema) (reply : Result Text Text) (why : RouteError)
    → routed s reply ≡ err why
    → CallFails reply why
unfolding routed usable_names
routed-CallFails s (err e) why q = inl (e, refl, cc)
routed-CallFails s (ok resp) why q = elim (Result-cases (parse_table_list resp)) [
  | inl (names, e) ↦ absurd (choose_names-ok names s why (rw e at q))
  | inr (other, e) ↦ inr (resp, refl, parse_table_list-Unreadable resp why (e ∙ rw e at q))
]

-- Routing fails for these reasons only: the schema has no table; the model's call failed, and its error
-- is passed on; its answer has no opening bracket, or no closing one behind the first opening one; or
-- what stands from the first opening to the last closing bracket of its answer is no JSON array of
-- strings. A schema with no table is not sent at all.
pub route-errors :
    {W : Type 0} (llm : Provider W) (ctx : Context) (w : W) (question : Text) (s : Schema)
    (why : RouteError)
    → (route llm ctx w question s).0 ≡ err why
    → ((s.tables ≡ []) × (why ≡ no_tables) × ((route llm ctx w question s).1 ≡ w))
      ⊎ CallFails (llm.generate ctx w (routing_prompt question s)).0 why
unfolding route
route-errors llm ctx w question s why q = elim (Bool-cases (is_nil s.tables)) [
  | inl none_there ↦ inl (tables_nil s.tables none_there, ground arith, rw none_there)
  | inr there ↦
      inr
        (routed-CallFails s (llm.generate ctx w (routing_prompt question s)).0 why (rw there at q))
]
  where
    tables_nil : (ts : List Table) → is_nil ts ≡ true → ts ≡ []
    tables_nil [] h = refl
    tables_nil (t ∷ ts) h = cc

-- The list of names that the model was asked for is read back from its answer: an array of plain
-- names, behind prose without an opening bracket and before prose without a closing one, is parsed
-- to these names.
pub parse_table_list-array :
    (before after : Text) (names : List Text)
    → Lacks b'[' before
    → Lacks b']' after
    → All IsPlain names
    → parse_table_list (before ++ (array names ++ after)) ≡ ok names
unfolding parse_table_list from_bracket array_part unmarshalled
parse_table_list-array before after names hb ha plain =
    let (inner, body, opens, closes) = array-brackets names in
    let found : index (before ++ (array names ++ after)) (codes "[")
        ≡ some (before, array names ++ after) =
      rw opens (index-append b'[' before (inner ++ after) hb) in
    let last : last_index (array names ++ after) b']' ≡ some (body, b']' ∷ after) =
      rw (closes, append_assoc) (last_index-append b']' body after ha) in
    let read : unmarshal_strings (body ++ codes "]") ≡ some names =
      rw (← closes) (unmarshal_strings-array names plain) in
    rw (found, from_bracket) (rw (last, array_part) (rw (read, unmarshalled)))

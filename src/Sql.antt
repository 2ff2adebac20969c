-- ===== src/Sql.antt =====
-- internal/agent/sql: the prompt of the text2sql stage, what is taken from the model's answer, and
-- the check of the tables that a query names.
pub mod Extract
pub mod Normalize
pub mod References
pub mod Capture
pub mod Quoted
use querylynx.Base.{
  ℕ, Bool, true, false, not, ◌&&◌, ◌||◌, Option, none, some, List, [], ◌∷◌, ◌++◌, map, ltb, leb,
  ◌==◌, if◌then◌else◌, is_nil, drop, Result, ok, err,
}
use querylynx.Strings.{
  Text, codes, to_lower, text_eq, trim, trim_space, has_prefix, index, last_index, join,
}
use querylynx.Regex.{
  Matcher, one_of, many, some_of, maybe, ◌then_match◌, either, group, boundary, literal,
  is_word_folded, is_name_start_folded, is_blank, find_all,
}
use querylynx.Context.{Context}
use querylynx.Dict.{Dict, put, flag}
use querylynx.Schema.{Schema, Table, table_names}
use querylynx.Rag.{Provider}
use querylynx.Prompt

-- (?i)\b(?:from|join)\s+("?[\w.]+"?)
abbrev is_quote : ℕ → Bool
is_quote c = c == b'"'

unfoldable pub in_reference : ℕ → Bool
in_reference c = is_word_folded c || c == b'.'

unfoldable pub from_join_re : Matcher
from_join_re =
    boundary
    then_match either (literal (codes "from")) (literal (codes "join"))
    then_match some_of is_blank
    then_match group (maybe is_quote then_match some_of in_reference then_match maybe is_quote)

-- (?i)(?:\bwith\b|,)\s+([a-zA-Z_]\w*)\s+as\s*\(
unfoldable pub cte_re : Matcher
cte_re =
    either (boundary then_match literal (codes "with") then_match boundary)
      (one_of (λ c. c == b','))
    then_match some_of is_blank
    then_match group (one_of is_name_start_folded then_match many is_word_folded)
    then_match some_of is_blank
    then_match literal (codes "as")
    then_match many is_blank
    then_match one_of (λ c. c == b'(')

after_dot : Text → Option (Text × Text) → Text
after_dot ref none = ref
after_dot ref (some (before, found)) = drop 1 found

unfoldable pub normalize_table_ref : Text → Text
unfolding after_dot
normalize_table_ref ref =
    let bare = trim ref b'"' in trim (after_dot bare (last_index bare b'.')) b'"'

-- sort.Strings: by insertion, in the order of the runes, which is that of the bytes.
text_leb : Text → Text → Bool
text_leb [] t = true
text_leb (x ∷ s) [] = false
text_leb (x ∷ s) (y ∷ t) = ltb x y || (x == y && text_leb s t)

insert_sorted : Text → List Text → List Text
insert_sorted a [] = a ∷ []
insert_sorted a (b ∷ bs) =
    let rest = insert_sorted a bs in if text_leb a b then a ∷ b ∷ bs else b ∷ rest

sort_texts : List Text → List Text
sort_texts [] = []
sort_texts (a ∷ as') = insert_sorted a (sort_texts as')

unfoldable pub known_list : Schema → Text
unfolding sort_texts insert_sorted text_leb
known_list s = join (sort_texts (table_names s.tables)) (codes ", ")

-- The message of `ValidateTables`. A name holds only runes that %q prints as they are.
unfoldable pub unknown_table : Text → Schema → Text
unknown_table name s =
    codes "table \"" ++ (name ++ (codes "\" does not exist; known tables: " ++ known_list s))

-- `known`, filled from a list of names.
unfoldable pub add_known : List Text → Dict Bool → Dict Bool
add_known [] known = known
add_known (n ∷ names) known = add_known names (put (to_lower n) true known)

-- Whether the loop of `ValidateTables` goes on behind a reference.
unfoldable pub is_fine : Dict Bool → Text → Bool
is_fine known ref =
    has_prefix ref (codes "(")
    || is_nil (normalize_table_ref ref)
    || flag (to_lower (normalize_table_ref ref)) known

unfoldable pub check_refs : Dict Bool → Schema → List Text → Option Text
check_refs known s [] = none
check_refs known s (ref ∷ refs) =
    let rest = check_refs known s refs in
    if is_fine known ref then rest else some (unknown_table (normalize_table_ref ref) s)

-- `none` is the nil error.
unfoldable pub validate_tables : Text → Schema → Option Text
validate_tables query s =
    check_refs (add_known (find_all cte_re query) (add_known (table_names s.tables) [])) s
      (find_all from_join_re query)

pub is_alphanumeric : ℕ → Bool
is_alphanumeric r = leb b'a' r && leb r b'z' || leb b'A' r && leb r b'Z' || leb b'0' r && leb r b'9'

all_alphanumeric : Text → Bool
all_alphanumeric [] = true
all_alphanumeric (r ∷ s) = is_alphanumeric r && all_alphanumeric s

unfoldable pub is_word_text : Text → Bool
unfolding all_alphanumeric is_alphanumeric
is_word_text s = all_alphanumeric s && not (is_nil s)

-- The fence's first line is dropped if it is a language tag or blank.
drop_tag : Text → Option (Text × Text) → Text
drop_tag rest none = rest
drop_tag rest (some (line, found)) =
    if is_nil (trim_space line) || is_word_text (trim_space line) then drop 1 found else rest

until_fence : Text → Option (Text × Text) → Text
until_fence rest none = rest
until_fence rest (some (before, found)) = before

in_fence : Text → Text
unfolding drop_tag until_fence
in_fence rest =
    let body = drop_tag rest (index rest (codes "\n")) in
    trim_space (until_fence body (index body (codes "```")))

from_fence : Text → Option (Text × Text) → Text
unfolding in_fence
from_fence resp none = resp
from_fence resp (some (before, found)) = in_fence (drop 3 found)

unfoldable pub extract_sql : Text → Text
unfolding from_fence
extract_sql resp = let trimmed = trim_space resp in from_fence trimmed (index trimmed (codes "```"))

correction : Text → Text
correction [] = []
correction (c ∷ s) =
    codes "Your previous attempt failed with this error:\n"
    ++ ((c ∷ s) ++ codes "\nWrite a corrected query.\n\n")

unfoldable pub build_prompt : Text → Text → Schema → Text → Text
unfolding correction
build_prompt dialect question s prior_err =
    codes "You are an expert "
    ++ (dialect
        ++ (codes " analyst. Write a single read-only SQL query that answers the question.\n\n"
            ++ (codes "Rules:\n"
                ++ (codes
                      "- Use ONLY the tables and columns in the schema below. Never invent names.\n"
                    ++ (codes
                          "- The query must be a single SELECT or WITH statement. No INSERT/UPDATE/DELETE/DDL, no multiple statements.\n"
                        ++ (codes
                              "- Return ONLY the SQL. You may wrap it in a ```sql code block.\n\n"
                            ++ (codes "Schema:\n"
                                ++ (Prompt.schema s
                                    ++ (codes "\n"
                                        ++ (correction prior_err
                                            ++ (codes "Question: "
                                                ++ (question ++ codes "\n"))))))))))))

extracted : Result Text Text → Result Text Text
extracted (err e) = err (codes "text2sql: generate: " ++ e)
extracted (ok resp) =
    let q = extract_sql resp in
    if is_nil q then err (codes "text2sql: model returned no SQL") else ok q

unfoldable pub generate :
    {W : Type 0} → Provider W → Context → W → Text → Text → Schema → Text → Result Text Text × W
unfolding extracted
generate llm ctx w dialect question s prior_err =
    let (resp, w') = llm.generate ctx w (build_prompt dialect question s prior_err) in
    (extracted resp, w')

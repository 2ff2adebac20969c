-- ===== src/Rag/Unreadable.antt =====
-- internal/rag/llmrouter.go, `parseTableList`: which answers of the model it cannot read.
use querylynx.Base.{
  Option, none, some, List, [], ◌∷◌, ◌++◌, ◌≡◌, refl, sym, ap, subst, ◌∙◌, arith, Option-cases, inl,
  inr, err,
}
use querylynx.Strings.{Text, codes, index, last_index}
use querylynx.Strings.Index.{Lacks, FindsFirst, FindsLast, index-FindsFirst, last_index-FindsLast}
use querylynx.Json.{unmarshal_strings}
use querylynx.Rag.{
  RouteError, no_array, parse_failed, unmarshalled, array_part, from_bracket, parse_table_list,
}

-- What is found behind an opening bracket, with the bracket.
opened : Option (Text × Text) → Option (Text × Text)
opened none = none
opened (some (before, found)) = some (b'[' ∷ before, found)

-- A closing bracket behind the opening one is the last of both.
last_index-opened : (rest : Text) → last_index (b'[' ∷ rest) b']' ≡ opened (last_index rest b']')
unfolding last_index opened
last_index-opened rest = elim (Option-cases (last_index rest b']')) [
  | inl e ↦ rw e refl
  | inr (found, e) ↦ rw e refl
]

-- Why an answer has no list of names: it has no opening bracket, or no closing bracket behind the first
-- opening one, or what stands from the first opening bracket to the last closing one is no JSON array of
-- strings.
pub data Unreadable (resp : Text) : RouteError → Type 0 where
  never_opened : Lacks b'[' resp → Unreadable resp no_array
  never_closed :
      (before rest : Text)
      → resp ≡ before ++ b'[' ∷ rest
      → Lacks b'[' before
      → Lacks b']' rest
      → Unreadable resp no_array
  no_strings :
      (before inner after : Text)
      → resp ≡ before ++ b'[' ∷ (inner ++ b']' ∷ after)
      → Lacks b'[' before
      → Lacks b']' after
      → unmarshal_strings (b'[' ∷ (inner ++ b']' ∷ [])) ≡ none
      → Unreadable resp parse_failed

unmarshalled-err :
    (read : Option (List Text)) (why : RouteError)
    → unmarshalled read ≡ err why
    → (read ≡ none) × (parse_failed ≡ why)
unfolding unmarshalled
unmarshalled-err none why h = (refl, cc)
unmarshalled-err (some names) why h = absurd (ground arith)

array_part-Unreadable :
    (resp before rest : Text) (last : Option (Text × Text)) (why : RouteError)
    → resp ≡ before ++ b'[' ∷ rest
    → Lacks b'[' before
    → FindsLast b']' rest last
    → array_part (opened last) ≡ err why
    → Unreadable resp why
unfolding array_part opened
array_part-Unreadable resp before rest none why same hb lacks h =
    let reason : no_array ≡ why = cc in
    subst (Unreadable resp) reason (never_closed before rest same hb lacks)
array_part-Unreadable resp before rest (some (inner, found)) why same hb (after, closes, split, ha)
      h =
    let (failed, reason) = unmarshalled-err _ why h in
    subst (Unreadable resp) reason
      (no_strings before inner after (same ∙ ap (λ t. before ++ b'[' ∷ t) split) hb ha failed)

from_bracket-Unreadable :
    (resp : Text) (first : Option (Text × Text)) (why : RouteError)
    → FindsFirst b'[' resp first
    → from_bracket first ≡ err why
    → Unreadable resp why
unfolding from_bracket
from_bracket-Unreadable resp none why lacks h =
    let reason : no_array ≡ why = cc in subst (Unreadable resp) reason (never_opened lacks)
from_bracket-Unreadable resp (some (before, found)) why (rest, opens, same, hb) h =
    array_part-Unreadable resp before rest (last_index rest b']') why same hb
      (last_index-FindsLast b']' rest)
      (ap array_part (sym (last_index-opened rest))
        ∙ ap (λ t. array_part (last_index t b']')) (sym opens)
        ∙ h)

pub parse_table_list-Unreadable :
    (resp : Text) (why : RouteError) → parse_table_list resp ≡ err why → Unreadable resp why
unfolding parse_table_list
parse_table_list-Unreadable resp why h =
    from_bracket-Unreadable resp (index resp (codes "[")) why (index-FindsFirst b'[' resp) h

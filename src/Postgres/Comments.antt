-- ===== src/Postgres/Comments.antt =====
-- `Validate` on a query that ends in a line comment.
use querylynx.Base.{
  ℕ, zero, suc, true, false, ◌||◌, [], ◌∷◌, ◌++◌, ◌≡◌, ◌⊎◌, refl, sym, ap, ◌∙◌, arith, ◌==◌,
  if◌then◌else◌, inl, inr, ok, append_assoc, append-nil, All, All-append, All-map,
}
use querylynx.Strings.{Text, codes, print_int}
use querylynx.Strings.Decimal.{IsDigit}
use querylynx.Regex.{match_string}
use querylynx.Safety.{strip}
use querylynx.Postgres.{Config, limit_re, validate}
use querylynx.Postgres.Limit.{limit_clause, validate_forms, print_int-IsNumeral}

-- Where a reader of SQL stands: in code, behind a dash or a slash of code, in a line comment, in a
-- block comment of some depth (or behind a slash or a star there), in a literal or a quoted name.
pub data Mode : Type 0 where
  plain dash slash line_comment literal name : Mode
  block block_slash block_star : ℕ → Mode

-- A rune of code that begins nothing.
abbrev from_plain : ℕ → Mode
from_plain c =
    if c == b'-'
    then dash
    else if c == b'/'
    then slash
    else if c == b'\''
    then literal
    else if c == b'"'
    then name
    else plain

abbrev in_block : ℕ → ℕ → Mode
in_block depth c =
    if c == b'/' then block_slash depth else if c == b'*' then block_star depth else block depth

abbrev leave_block : ℕ → Mode
leave_block zero = plain
leave_block (suc depth) = block depth

abbrev read : Mode → ℕ → Mode
read plain c = from_plain c
read dash c = if c == b'-' then line_comment else from_plain c
read slash c = if c == b'*' then block zero else from_plain c
read line_comment c = if c == b'\n' || c == b'\r' then plain else line_comment
read literal c = if c == b'\'' then plain else literal
read name c = if c == b'"' then plain else name
read (block depth) c = in_block depth c
read (block_slash depth) c = if c == b'*' then block (suc depth) else in_block depth c
read (block_star depth) c = if c == b'/' then leave_block depth else in_block depth c

-- Where the reader stands after a text.
unfoldable pub scan : Mode → Text → Mode
scan m [] = m
scan m (c ∷ s) = scan (read m c) s

abbrev hides : Mode → Text → Text
hides line_comment t = []
hides _ t = t

-- The text with the runes dropped that are read inside a line comment.
pub visible_from : Mode → Text → Text
visible_from m [] = []
visible_from m (c ∷ s) = hides m (c ∷ []) ++ visible_from (read m c) s

abbrev pub EndsInComment : Text → Type 0
EndsInComment s = scan plain s ≡ line_comment

pub visible : Text → Text
visible = visible_from plain

visible_from-append :
    (m : Mode) (s t : Text)
    → visible_from m (s ++ t) ≡ visible_from m s ++ visible_from (scan m s) t
unfolding visible_from scan
visible_from-append m [] t = refl
visible_from-append m (c ∷ s) t =
    ap (λ u. hides m (c ∷ []) ++ u) (visible_from-append (read m c) s t)
    ∙ sym (append_assoc (hides m (c ∷ [])) _ _)

abbrev StaysInLine : Text → Type 0
StaysInLine = All (λ c. (c == b'\n' || c == b'\r') ≡ false)

visible_from_comment : (s : Text) → StaysInLine s → visible_from line_comment s ≡ []
unfolding visible_from
visible_from_comment [] h = refl
visible_from_comment (c ∷ s) (hc, hs) = rw hc (visible_from_comment s hs)

numeral_stays : (c : ℕ) → ((c == b'-') ≡ true ⊎ IsDigit c) → (c == b'\n' || c == b'\r') ≡ false
numeral_stays c h = ground arith

limit_clause-StaysInLine : (cfg : Config) → StaysInLine (limit_clause cfg)
limit_clause-StaysInLine cfg =
    All-append _ (codes " LIMIT ") (print_int cfg.row_cap) (ground arith)
      (All-map _ _ (print_int cfg.row_cap) numeral_stays (print_int-IsNumeral cfg.row_cap))

-- If the stripped query has no LIMIT and ends inside a line comment, then the clause that `Validate`
-- appends lands in that comment: without line comments, the result reads as the query did.
pub validate_commented :
    (cfg : Config) (q : Text) {r : Text}
    → validate cfg q ≡ ok r
    → match_string limit_re (strip q) ≡ false
    → EndsInComment (strip q)
    → (r ≡ strip q ++ limit_clause cfg) × (visible r ≡ visible (strip q))
unfolding visible
validate_commented cfg q h missing ends =
    let (_, form) = validate_forms cfg q h in
    elim form [
      | inl (found, _) ↦ absurd (ground arith)
      | inr (_, same) ↦ (
        same,
        rw same (
            visible_from-append plain (strip q) (limit_clause cfg)
            ∙ rw ends (rw (visible_from_comment _ (limit_clause-StaysInLine cfg)) (append-nil _))),
      )
    ]

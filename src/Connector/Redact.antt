-- ===== src/Connector/Redact.antt =====
-- internal/connector/redact.go: what is shown of a connection string. The parser of URLs is a parameter.
pub mod Hides
use querylynx.Base.{
  ℕ, zero, suc, ◌+◌, ◌-◌, ◌≤◌, Bool, true, false, not, ◌||◌, ◌&&◌, ◌==◌, Option, none, some, List,
  [], ◌∷◌, ◌++◌, ◌≡◌, refl, sym, ap, ◌∙◌, arith, if◌then◌else◌, is_nil, length, length-append, All,
  Bool-cases, Option-cases, inl, inr, append_assoc, append-nil,
}
use querylynx.Strings.{Text, codes, trim_left}
use querylynx.Regex.{folds}

-- A parsed URL: its scheme, its user with a password or without, and its text with another user.
pub record Url : Type 0 where
  pub scheme : Text
  pub user : Option (Text × Option Text)
  pub print : Option (Text × Option Text) → Text

-- The literal under (?i): what it matched, and the rest.
unfoldable pub onto_matched : ℕ → Option (Text × Text) → Option (Text × Text)
onto_matched c none = none
onto_matched c (some (matched, rest)) = some (c ∷ matched, rest)

unfoldable pub match_literal : Text → Text → Option (Text × Text)
unfolding onto_matched folds
match_literal [] s = some ([], s)
match_literal (l ∷ letters) [] = none
match_literal (l ∷ letters) (c ∷ s) =
    let rest = match_literal letters s in if folds l c then onto_matched c rest else none

abbrev pub no_blank : ℕ → Bool
no_blank c = not (c == b' ')

abbrev pub keyword : Text
keyword = codes "password="

-- [^ ]+ behind the keyword: the keyword as it stands there, and what is behind the value.
unfoldable pub match_value : Option (Text × Text) → Option (Text × Text)
unfolding trim_left
match_value none = none
match_value (some (word, [])) = none
match_value (some (word, c ∷ s)) = if no_blank c then some (word, trim_left no_blank s) else none

unfoldable pub kv_password : Text → Option (Text × Text)
unfolding match_literal match_value
kv_password s = match_value (match_literal keyword s)

-- ReplaceAllString with "${1}***". `skip` runes still belong to the last match.
unfoldable pub replace_from : ℕ → Text → Text
replace_from skip [] = []
replace_from (suc skip) (c ∷ s) = replace_from skip s
replace_from zero (c ∷ s) = elim (kv_password (c ∷ s)) [
  | none ↦ c ∷ replace_from zero s
  | some (word, rest) ↦ word ++ (codes "***" ++ replace_from (length s - length rest) s)
]

unfoldable pub redact_pairs : Text → Text
unfolding replace_from
redact_pairs s = replace_from zero s

redact_user : Option (Text × Option Text) → Option (Text × Option Text)
redact_user none = none
redact_user (some (name, none)) = some (name, none)
redact_user (some (name, some password)) = some (name, some (codes "***"))

unfoldable pub redact_parsed : Text → Option Url → Text
unfolding redact_pairs redact_user
redact_parsed dsn none = redact_pairs dsn
redact_parsed dsn (some u) =
    if is_nil u.scheme then redact_pairs dsn else u.print (redact_user u.user)

unfoldable pub redact_dsn : (Text → Option Url) → Text → Text
unfolding redact_parsed
redact_dsn parse dsn = redact_parsed dsn (parse dsn)

-- ===== src/Regex.antt =====
-- What the program uses of Go's package regexp: leftmost-first matching, as a matcher that tries its
-- continuation at each candidate in the order of preference. Patterns are built by the combinators
-- below, so a pattern of the source is one term. `(?i)` is Unicode's simple folding: beside the
-- letters of either case it adds U+017F to `s` and U+212A to `k`.
pub mod Laws
pub mod Blanks
use querylynx.Base.{
  ℕ, zero, suc, ◌+◌, ◌-◌, Bool, true, false, not, ◌&&◌, ◌||◌, Option, none, some, List, [], ◌∷◌,
  ltb, leb, ◌==◌, if◌then◌else◌, length, take,
}
use querylynx.Strings.{Text}

-- A position in the text: the rune before it, the text behind it, and the captured group.
pub record Position : Type 0 where
  pub before : Option ℕ
  pub rest : Text
  pub captured : Text

abbrev pub Matcher : Type 0
Matcher = Position → (Position → Option Position) → Option Position

abbrev pub or_else : Option Position → Option Position → Option Position
or_else (some p) q = some p
or_else none q = q

abbrev pub advance : Position → ℕ → Text → Position
advance p c s = record p { before = some c; rest = s }

pub class_at : (ℕ → Bool) → Text → Position → (Position → Option Position) → Option Position
class_at cls [] p k = none
class_at cls (c ∷ s) p k = if cls c then k (advance p c s) else none

-- [cls]
unfoldable pub one_of : (ℕ → Bool) → Matcher
unfolding class_at
one_of cls p k = class_at cls p.rest p k

-- [cls]*, greedy
pub many_at : (ℕ → Bool) → Text → Position → (Position → Option Position) → Option Position
many_at cls [] p k = k p
many_at cls (c ∷ s) p k = elim (cls c) [
  | true ↦ or_else (many_at cls s (advance p c s) k) (k p)
  | false ↦ k p
]

unfoldable pub many : (ℕ → Bool) → Matcher
unfolding many_at
many cls p k = many_at cls p.rest p k

-- [cls]+, greedy
unfoldable pub some_of : (ℕ → Bool) → Matcher
unfolding one_of many
some_of cls p k = one_of cls p (λ q. many cls q k)

-- [cls]?, greedy
unfoldable pub maybe : (ℕ → Bool) → Matcher
unfolding one_of
maybe cls p k = or_else (one_of cls p k) (k p)

infixr 60 ◌then_match◌
unfoldable pub ◌then_match◌ : Matcher → Matcher → Matcher
◌then_match◌ m n p k = m p (λ q. n q k)

-- (?:m|n)
unfoldable pub either : Matcher → Matcher → Matcher
either m n p k = or_else (m p k) (n p k)

-- (m): what `m` consumed is captured.
unfoldable pub group : Matcher → Matcher
group m p k = m p (λ q. k (record q { captured = take (length p.rest - length q.rest) p.rest }))

-- \w without folding, which is what \b looks at.
unfoldable pub is_word : ℕ → Bool
is_word c =
    leb b'0' c && leb c b'9' || leb b'A' c && leb c b'Z' || c == b'_' || leb b'a' c && leb c b'z'

word_before : Option ℕ → Bool
word_before none = false
word_before (some c) = is_word c

word_after : Text → Bool
word_after [] = false
word_after (c ∷ s) = is_word c

abbrev differ : Bool → Bool → Bool
differ true b = not b
differ false b = b

-- \b
unfoldable pub boundary : Matcher
unfolding word_before word_after is_word
boundary p k = if differ (word_before p.before) (word_after p.rest) then k p else none

-- A letter under (?i), given in lower case, and a literal of such.
unfoldable pub folds : ℕ → ℕ → Bool
folds letter c =
    c == letter
    || leb b'a' letter && leb letter b'z' && c + 32 == letter
    || letter == b's' && c == 0x17f
    || letter == b'k' && c == 0x212a

unfoldable pub literal : Text → Matcher
unfolding folds one_of
literal [] p k = k p
literal (c ∷ s) p k = one_of (folds c) p (λ q. literal s q k)

-- \w and [a-zA-Z_] under (?i), and \s.
unfoldable pub is_word_folded : ℕ → Bool
unfolding is_word
is_word_folded c = is_word c || c == 0x17f || c == 0x212a

unfoldable pub is_name_start_folded : ℕ → Bool
is_name_start_folded c =
    leb b'A' c && leb c b'Z' || leb b'a' c && leb c b'z' || c == b'_' || c == 0x17f || c == 0x212a

unfoldable pub is_blank : ℕ → Bool
is_blank c = c == b'\t' || c == b'\n' || c == 12 || c == b'\r' || c == b' '

-- A match that starts here.
unfoldable pub match_here : Matcher → Option ℕ → Text → Option Position
match_here m prev s = m (record { before = prev; rest = s; captured = [] }) (λ p. some p)

is_some_position : Option Position → Bool
is_some_position (some p) = true
is_some_position none = false

unfoldable pub matches_here : Matcher → Option ℕ → Text → Bool
unfolding is_some_position match_here
matches_here m prev s = is_some_position (match_here m prev s)

-- MatchString from a position on.
unfoldable pub matches_from : Matcher → Option ℕ → Text → Bool
unfolding matches_here
matches_from m prev [] = matches_here m prev []
matches_from m prev (c ∷ s) = matches_here m prev (c ∷ s) || matches_from m (some c) s

unfoldable pub match_string : Matcher → Text → Bool
unfolding matches_from
match_string m s = matches_from m none s

-- FindAllStringSubmatch: the captured group of each match, leftmost matches first and without
-- overlap. `skip` runes still belong to the last match. No pattern here matches the empty text.
unfoldable pub find_all_from : Matcher → ℕ → Option ℕ → Text → List Text
unfolding match_here
find_all_from m skip prev [] = []
find_all_from m (suc skip) prev (c ∷ s) = find_all_from m skip (some c) s
find_all_from m zero prev (c ∷ s) = elim (match_here m prev (c ∷ s)) [
  | some p ↦ p.captured ∷ find_all_from m (length s - length p.rest) (some c) s
  | none ↦ find_all_from m zero (some c) s
]

unfoldable pub find_all : Matcher → Text → List Text
unfolding find_all_from
find_all m s = find_all_from m zero none s

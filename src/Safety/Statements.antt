-- ===== src/Safety/Statements.antt =====
-- `splitStatements`, stripping, and the number of statements of a text.
use querylynx.Base.{
  ℕ, suc, ◌+◌, Bool, true, false, not, ◌&&◌, ◌||◌, List, [], ◌∷◌, ◌≡◌, refl, ◌∙◌, arith, ◌==◌,
  if◌then◌else◌, is_nil, length, Bool-cases, inl, inr,
}
use querylynx.Strings.{Text, is_space, trim_left, trim_right, trim_space, trim_suffix, split}
use querylynx.Strings.Trim.{space-ne-semicolon, is_nil-eq}
use querylynx.Strings.Split.{split-parts, split_in_part}
use querylynx.Safety.{non_blank, split_statements, strip}

-- The statements of a text, counted in one pass: a statement begins at the first rune that is no
-- white space and ends at the next semicolon. The flag says that one is being read.
abbrev pub statements_from : Bool → Text → ℕ
statements_from inside [] = 0
statements_from inside (c ∷ s) =
    (if c == b';' || inside || is_space c then 0 else 1)
    + statements_from (not (c == b';') && (inside || not (is_space c))) s

abbrev pub statements : Text → ℕ
statements = statements_from false

trim_left-statements :
    (s : Text) → statements_from false (trim_left is_space s) ≡ statements_from false s
unfolding trim_left
trim_left-statements [] = refl
trim_left-statements (c ∷ s) = ground (arith, trim_left-statements s, space-ne-semicolon c)

trim_right-statements :
    (inside : Bool) (s : Text)
    → statements_from inside (trim_right is_space s) ≡ statements_from inside s
unfolding trim_right
trim_right-statements inside [] = refl
trim_right-statements inside (c ∷ s) = ground (
  arith,
  trim_right-statements true s,
  trim_right-statements false s,
  space-ne-semicolon c,
  is_nil-eq (trim_right is_space s),
)

trim_suffix-statements :
    (inside : Bool) (s : Text)
    → statements_from inside (trim_suffix s b';') ≡ statements_from inside s
unfolding trim_suffix
trim_suffix-statements inside [] = refl
trim_suffix-statements inside (c ∷ []) = ground arith
trim_suffix-statements inside (c ∷ d ∷ s) =
    ground (arith, trim_suffix-statements true (d ∷ s), trim_suffix-statements false (d ∷ s))

trim_space-statements : (s : Text) → statements (trim_space s) ≡ statements s
unfolding trim_space
trim_space-statements s =
    trim_right-statements false (trim_left is_space s) ∙ trim_left-statements s

-- The stripping of blanks and one final semicolon does not change the number of statements.
pub strip-statements : (q : Text) → statements (strip q) ≡ statements q
unfolding strip
strip-statements q =
    trim_space-statements (trim_suffix (trim_space q) b';')
    ∙ trim_suffix-statements false (trim_space q)
    ∙ trim_space-statements q

-- The parts of a split that are not blank, counted.
abbrev count : List Text → ℕ
count parts = length (non_blank parts)

trim_space-Blank : (c : ℕ) (s : Text) → is_space c ≡ true → trim_space (c ∷ s) ≡ trim_space s
unfolding trim_space trim_left
trim_space-Blank c s h = rw h

trim_space_solid : (c : ℕ) (s : Text) → is_space c ≡ false → is_nil (trim_space (c ∷ s)) ≡ false
unfolding trim_space trim_left trim_right
trim_space_solid c s h = rw h (rw h)

count_blank :
    (c : ℕ) (p : Text) (ps : List Text) → is_space c ≡ true → count ((c ∷ p) ∷ ps) ≡ count (p ∷ ps)
unfolding non_blank
count_blank c p ps h = rw (trim_space-Blank c p h)

count_solid :
    (c : ℕ) (p : Text) (ps : List Text) → is_space c ≡ false → count ((c ∷ p) ∷ ps) ≡ suc (count ps)
unfolding non_blank
count_solid c p ps h = rw (trim_space_solid c p h)

count-nil : (ps : List Text) → count ([] ∷ ps) ≡ count ps
unfolding non_blank trim_space trim_left trim_right
count-nil ps = refl

-- While a statement is being read, the part at hand is counted already.
abbrev CountIs : Text → List Text → Type 0
CountIs s [] = ⊥
CountIs s (p ∷ ps) = (count (p ∷ ps) ≡ statements s) × (count ps ≡ statements_from true s)

CountIs-cons :
    (c : ℕ) (s p : Text) (ps : List Text)
    → CountIs s (p ∷ ps)
    → CountIs (c ∷ s) (if c == b';' then [] ∷ p ∷ ps else (c ∷ p) ∷ ps)
CountIs-cons c s p ps (outside, inside) = elim (Bool-cases (c == b';')) [
  | inl h ↦ rw h (ground (arith, count-nil (p ∷ ps)), ground arith)
  | inr h ↦
      rw h
        (ground (arith, count_blank c p ps, count_solid c p ps), ground (arith, count_blank c p ps))
]

split_here : (c : ℕ) (s : Text) → (c == b';') ≡ true → split (c ∷ s) b';' ≡ [] ∷ split s b';'
unfolding split
split_here c s h = rw h

count-statements : (s : Text) → CountIs s (split s b';')
count-statements [] = unfold split non_blank trim_space trim_left trim_right in (refl, refl)
count-statements (c ∷ s) =
    let (p, ps, e) = split-parts s b';' in
    let ih = CountIs-cons c s p ps (rw e at (count-statements s)) in
    elim (Bool-cases (c == b';')) [
      | inl h ↦ rw (split_here c s h, e) (rw h at ih)
      | inr h ↦ rw (split_in_part c s b';' p ps h e) (rw h at ih)
    ]

-- The number of parts that splitStatements returns is the number of runs between semicolons that
-- hold a rune that is not blank, as one pass over the text counts them.
pub split_statements-statements : (s : Text) → length (split_statements s) ≡ statements s
unfolding split_statements
split_statements-statements s =
    let (p, ps, e) = split-parts s b';' in rw e (rw e at (count-statements s)).0

-- ===== src/Regex/Blanks.antt =====
-- Patterns that need white space: they match nowhere in a text that has none.
use querylynx.Base.{
  ℕ, zero, suc, Bool, false, Option, none, some, [], ◌∷◌, ◌≡◌, refl, arith, All, Bool-cases, inl,
  inr,
}
use querylynx.Strings.{Text}
use querylynx.Regex.{
  Position, Matcher, advance, class_at, one_of, some_of, ◌then_match◌, either, boundary, literal,
  folds, is_blank, match_here, find_all_from,
}

abbrev pub NoBlank : Text → Type 0
NoBlank = All (λ c. is_blank c ≡ false)

abbrev Fails : (Position → Option Position) → Type 0
Fails k = (p : Position) → NoBlank p.rest → k p ≡ none

-- The matcher fails where there is no white space, if what comes behind it does.
pub record Passes (m : Matcher) : Type 0 where
  pub at : (p : Position) (k : Position → Option Position) → Fails k → NoBlank p.rest → m p k ≡ none

-- The matcher fails where there is no white space.
pub record Blocks (m : Matcher) : Type 0 where
  pub at : (p : Position) (k : Position → Option Position) → NoBlank p.rest → m p k ≡ none

class_at-none :
    (cls : ℕ → Bool) (s : Text) (p : Position) (k : Position → Option Position)
    → Fails k
    → NoBlank s
    → class_at cls s p k ≡ none
unfolding class_at
class_at-none cls [] p k f h = refl
class_at-none cls (c ∷ s) p k f (hc, hs) = elim (Bool-cases (cls c)) [
  | inl e ↦ rw e (f (advance p c s) hs)
  | inr e ↦ rw e
]

pub one_of-Passes : (cls : ℕ → Bool) → Passes (one_of cls)
unfolding one_of
one_of-Passes cls = record { at = λ p k f h. class_at-none cls p.rest p k f h }

pub boundary-Passes : Passes boundary
unfolding boundary
boundary-Passes = record { at = λ p k f h. ground (arith, f p h) }

pub either-Passes : {m n : Matcher} → Passes m → Passes n → Passes (either m n)
unfolding either
either-Passes a b = record { at = λ p k f h. rw (a.at p k f h) (b.at p k f h) }

pub then_match-Passes : {m n : Matcher} → Passes m → Passes n → Passes (m then_match n)
unfolding ◌then_match◌
then_match-Passes a b = record { at = λ p k f h. a.at p _ (λ q g. b.at q k f g) h }

pub literal-Passes : (s : Text) → Passes (literal s)
unfolding literal
literal-Passes [] = record { at = λ p k f h. f p h }
literal-Passes (c ∷ s) = record {
  at = λ p k f h. (one_of-Passes (folds c)).at p _ (λ q g. (literal-Passes s).at q k f g) h;
}

pub then_match-Blocks : {m n : Matcher} → Passes m → Blocks n → Blocks (m then_match n)
unfolding ◌then_match◌
then_match-Blocks a b = record { at = λ p k h. a.at p _ (λ q g. b.at q k g) h }

pub Blocks-then_match : {m : Matcher} (n : Matcher) → Blocks m → Blocks (m then_match n)
unfolding ◌then_match◌
Blocks-then_match n a = record { at = λ p k h. a.at p _ h }

class_at_blank :
    (s : Text) (p : Position) (k : Position → Option Position)
    → NoBlank s
    → class_at is_blank s p k ≡ none
unfolding class_at
class_at_blank [] p k h = refl
class_at_blank (c ∷ s) p k h = rw h.0

pub blanks-Blocks : Blocks (some_of is_blank)
unfolding some_of one_of
blanks-Blocks = record { at = λ p k h. class_at_blank p.rest p _ h }

-- No match is found from here on.
pub find_all_from-Blocks :
    (m : Matcher) (skip : ℕ) (before : Option ℕ) (s : Text)
    → Blocks m
    → NoBlank s
    → find_all_from m skip before s ≡ []
unfolding find_all_from match_here
find_all_from-Blocks m skip before [] b h = refl
find_all_from-Blocks m (suc skip) before (c ∷ s) b h = find_all_from-Blocks m skip (some c) s b h.1
find_all_from-Blocks m zero before (c ∷ s) b h =
    rw
      (
        b.at (record { before = before; rest = c ∷ s; captured = [] }) (λ p. some p) h,
        find_all_from,
      )
      (find_all_from-Blocks m zero (some c) s b h.1)

-- ===== src/Strings/Names.antt =====
-- Lists of names: membership, and lists in which no name comes twice.
use querylynx.Base.{
  Bool, true, false, ◌||◌, map, All, subst, append_assoc, Bool-cases, inl, inr, List, [], ◌∷◌, ◌++◌,
  ◌≡◌, refl, ◌∙◌, arith,
}
use querylynx.Strings.{Text, text_eq}
use querylynx.Strings.Equal.{text_eq-eq, text_eq_refl}

-- The text is in the list.
unfoldable pub contains : List Text → Text → Bool
contains [] a = false
contains (x ∷ xs) a = text_eq x a || contains xs a

pub contains-append :
    (xs ys : List Text) (a : Text) → contains (xs ++ ys) a ≡ (contains xs a || contains ys a)
unfolding contains
contains-append [] ys a = refl
contains-append (x ∷ xs) ys a = rw (contains-append xs ys a) (ground arith)

pub contains_one : (b a : Text) → contains (b ∷ []) a ≡ text_eq b a
unfolding contains
contains_one b a = ground arith

pub contains_self : (xs ys : List Text) (a : Text) → contains (xs ++ a ∷ ys) a ≡ true
contains_self xs ys a = rw contains-append (unfold contains in rw text_eq_refl (ground arith))

-- No text comes twice.
abbrev pub IsDistinct : List Text → Type 0
IsDistinct [] = Unit
IsDistinct (x ∷ xs) = (contains xs x ≡ false) × IsDistinct xs

pub IsDistinct-concat :
    (xs : List Text) (a : Text) → IsDistinct xs → contains xs a ≡ false → IsDistinct (xs ++ a ∷ [])
unfolding contains
IsDistinct-concat [] a d h = (refl, tt)
IsDistinct-concat (x ∷ xs) a (hx, d) h = (
  contains-append xs (a ∷ []) x ∙ ground (arith, text_eq-eq a x, text_eq_refl x),
  IsDistinct-concat xs a d (ground arith),
)

pub contains-map :
    (f : Text → Text) (xs : List Text) (a : Text)
    → contains xs a ≡ true
    → contains (map f xs) (f a) ≡ true
unfolding contains
contains-map f [] a h = cc
contains-map f (x ∷ xs) a h = elim (Bool-cases (text_eq x a)) [
  | inl e ↦ let same : x ≡ a = text_eq-eq x a e in rw same (rw text_eq_refl (ground arith))
  | inr e ↦ rw (contains-map f xs a (ground arith)) (ground arith)
]

-- Every member of a list is in any list that ends with it.
pub contains-All : (before names : List Text) → All (λ n. contains (before ++ names) n ≡ true) names
contains-All before [] = tt
contains-All before (n ∷ names) = (
  contains_self before names n,
  subst (λ all. All (λ m. contains all m ≡ true) names) (append_assoc before (n ∷ []) names)
      (contains-All (before ++ n ∷ []) names),
)

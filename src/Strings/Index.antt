-- ===== src/Strings/Index.antt =====
-- Searches for one rune.
use querylynx.Base.{
  ℕ, false, Option, none, some, [], ◌∷◌, ◌++◌, ◌≡◌, refl, ap, subst, arith, ◌==◌, All, ==_refl,
  Bool-cases, Option-cases, inl, inr,
}
use querylynx.Strings.{Text, has_prefix, onto_before, index, last_index}

abbrev pub Lacks : ℕ → Text → Type 0
Lacks c = All (λ x. (x == c) ≡ false)

-- The first occurrence stands behind a text that has none.
pub index-append :
    (c : ℕ) (before rest : Text)
    → Lacks c before
    → index (before ++ c ∷ rest) (c ∷ []) ≡ some (before, c ∷ rest)
unfolding index
index-append c [] rest h = rw ==_refl
index-append c (x ∷ before) rest (hx, hs) = rw (hx, index-append c before rest hs)

pub last_index-none : (c : ℕ) (s : Text) → Lacks c s → last_index s c ≡ none
unfolding last_index
last_index-none c [] h = refl
last_index-none c (x ∷ s) (hx, hs) = rw (last_index-none c s hs, hx)

-- The last occurrence stands before a text that has none.
pub last_index-append :
    (c : ℕ) (before rest : Text)
    → Lacks c rest
    → last_index (before ++ c ∷ rest) c ≡ some (before, c ∷ rest)
unfolding last_index
last_index-append c [] rest h = rw (last_index-none c rest h, ==_refl)
last_index-append c (x ∷ before) rest h = rw (last_index-append c before rest h)

-- What a search for the first occurrence finds: nothing in a text that has none, else the text before
-- it, which has none, and the text from there on.
abbrev pub FindsFirst : ℕ → Text → Option (Text × Text) → Type 0
FindsFirst c s none = Lacks c s
FindsFirst c s (some (before, found)) =
    (rest : Text) × (found ≡ c ∷ rest) × (s ≡ before ++ c ∷ rest) × Lacks c before

onto_before-FindsFirst :
    (c x : ℕ) (s : Text) (r : Option (Text × Text))
    → (x == c) ≡ false
    → FindsFirst c s r
    → FindsFirst c (x ∷ s) (onto_before x r)
unfolding onto_before
onto_before-FindsFirst c x s none hx lacks = (hx, lacks)
onto_before-FindsFirst c x s (some (before, found)) hx (rest, opens, same, lacks) =
    (rest, opens, ap (λ t. x ∷ t) same, (hx, lacks))

pub index-FindsFirst : (c : ℕ) (s : Text) → FindsFirst c s (index s (c ∷ []))
unfolding index has_prefix
index-FindsFirst c [] = tt
index-FindsFirst c (x ∷ s) = elim (Bool-cases (x == c)) [
  | inl e ↦
      let same : x ≡ c = ground arith in rw e (s, ap (λ y. y ∷ s) same, ap (λ y. y ∷ s) same, tt)
  | inr e ↦ rw e (onto_before-FindsFirst c x s (index s (c ∷ [])) e (index-FindsFirst c s))
]

-- The same for the last occurrence; the text behind it has none.
abbrev pub FindsLast : ℕ → Text → Option (Text × Text) → Type 0
FindsLast c s none = Lacks c s
FindsLast c s (some (before, found)) =
    (rest : Text) × (found ≡ c ∷ rest) × (s ≡ before ++ c ∷ rest) × Lacks c rest

pub last_index-FindsLast : (c : ℕ) (s : Text) → FindsLast c s (last_index s c)
unfolding last_index
last_index-FindsLast c [] = tt
last_index-FindsLast c (x ∷ s) = elim (Option-cases (last_index s c)) [
  | inl nothing ↦
      let lacks : Lacks c s = subst (FindsLast c s) nothing (last_index-FindsLast c s) in
      elim (Bool-cases (x == c)) [
        | inl e ↦
            let same : x ≡ c = ground arith in
            rw (nothing, e) (s, ap (λ y. y ∷ s) same, ap (λ y. y ∷ s) same, lacks)
        | inr e ↦ rw (nothing, e) (e, lacks)
      ]
  | inr ((before, found), there) ↦
      let (rest, closes, same, lacks) = subst (FindsLast c s) there (last_index-FindsLast c s) in
      rw there (rest, closes, ap (λ t. x ∷ t) same, lacks)
]

-- ===== src/Strings/Trim.antt =====
-- Trimming: what stays, and what a trimmed text looks like.
use querylynx.Base.{
  ℕ, Bool, true, false, ◌&&◌, [], ◌∷◌, ◌++◌, ◌≡◌, refl, arith, ◌==◌, is_nil, All, Bool-cases, inl,
  inr, sym, ap, subst, ◌∙◌, append_assoc, if◌then◌else◌,
}
use querylynx.Strings.{Text, is_space, trim_left, trim_right, trim_space}

-- Every rune is white space.
abbrev pub Blank : Text → Type 0
Blank = All (λ c. is_space c ≡ true)

pub space-ne-semicolon : (c : ℕ) → is_space c ≡ true → (c == b';') ≡ false
unfolding is_space
space-ne-semicolon c h = ground arith

pub is_nil-eq : (s : Text) → is_nil s ≡ true → s ≡ []
is_nil-eq [] h = refl
is_nil-eq (c ∷ s) h = cc

pub and_true : (a b : Bool) → (a && b) ≡ true → (a ≡ true) × (b ≡ true)
and_true a b h = ground arith

module _ (p : ℕ → Bool) where
  pub trim_left-append :
      (a b : Text) → All (λ c. p c ≡ true) a → trim_left p (a ++ b) ≡ trim_left p b
  unfolding trim_left
  trim_left-append [] b h = refl
  trim_left-append (c ∷ a) b (hc, ha) = ground (arith, trim_left-append a b ha)

  pub trim_left_keep : (c : ℕ) (s : Text) → p c ≡ false → trim_left p (c ∷ s) ≡ c ∷ s
  unfolding trim_left
  trim_left_keep c s h = ground arith

  pub trim_right-nil : (s : Text) → All (λ c. p c ≡ true) s → trim_right p s ≡ []
  unfolding trim_right
  trim_right-nil [] h = refl
  trim_right-nil (c ∷ s) (hc, hs) = ground (arith, trim_right-nil s hs)

  pub trim_right-append :
      (a b : Text) → All (λ c. p c ≡ true) b → trim_right p (a ++ b) ≡ trim_right p a
  unfolding trim_right
  trim_right-append [] b h = trim_right-nil b h
  trim_right-append (c ∷ a) b h = ground (arith, trim_right-append a b h)

  -- Trimming twice changes nothing more.
  pub trim_left_idem : (s : Text) → trim_left p (trim_left p s) ≡ trim_left p s
  unfolding trim_left
  trim_left_idem [] = refl
  trim_left_idem (c ∷ s) = ground (arith, trim_left_idem s)

  pub trim_right_idem : (s : Text) → trim_right p (trim_right p s) ≡ trim_right p s
  unfolding trim_right
  trim_right_idem [] = refl
  trim_right_idem (c ∷ s) = ground (arith, trim_right_idem s)

  -- A text split into what `trim_left` drops and what it keeps.
  pub trim_left-splits :
      (s : Text) → (lead : Text) × (s ≡ lead ++ trim_left p s) × All (λ c. p c ≡ true) lead
  unfolding trim_left
  trim_left-splits [] = ([], refl, tt)
  trim_left-splits (c ∷ s) = elim (Bool-cases (p c)) [
    | inl h ↦ let (lead, e, a) = trim_left-splits s in (c ∷ lead, rw h (ap (◌∷◌ c) e), (h, a))
    | inr h ↦ ([], rw h, tt)
  ]

  pub trim_right-splits :
      (s : Text) → (trail : Text) × (s ≡ trim_right p s ++ trail) × All (λ c. p c ≡ true) trail
  unfolding trim_right
  trim_right-splits [] = ([], refl, tt)
  trim_right-splits (c ∷ s) =
      let (trail, e, a) = trim_right-splits s in
      elim (Bool-cases (p c && is_nil (trim_right p s))) [
        | inl h ↦
            let (here, later) = and_true (p c) (is_nil (trim_right p s)) h in
            let gone = is_nil-eq (trim_right p s) later in
            let same : s ≡ trail = rw gone at e in
            (c ∷ s, rw h, (here, subst (All (λ x. p x ≡ true)) (sym same) a))
        | inr h ↦ (trail, rw h (ap (◌∷◌ c) e), a)
      ]

-- What `strings.TrimSpace` drops is blank, on both sides.
pub trim_space-splits :
    (s : Text)
    → (lead trail : Text) × (s ≡ lead ++ (trim_space s ++ trail)) × Blank lead × Blank trail
unfolding trim_space
trim_space-splits s =
    let (lead, e, a) = trim_left-splits is_space s in
    let (trail, e', a') = trim_right-splits is_space (trim_left is_space s) in
    (lead, trail, e ∙ ap (λ t. lead ++ t) e', a, a')

module _ (p : ℕ → Bool) where
  pub trim_left_keeps :
      (a : Text) (c : ℕ) (s : Text)
      → p c ≡ false
      → trim_left p (a ++ c ∷ s) ≡ trim_left p a ++ c ∷ s
  unfolding trim_left
  trim_left_keeps [] c s h = rw h
  trim_left_keeps (x ∷ a) c s h = ground (arith, trim_left_keeps a c s h)

  pub trim_right_keeps :
      (a : Text) (c : ℕ) (b : Text)
      → p c ≡ false
      → trim_right p (a ++ c ∷ b) ≡ a ++ c ∷ trim_right p b
  unfolding trim_right
  trim_right_keeps [] c b h = rw h
  trim_right_keeps (x ∷ a) c b h = rw (trim_right_keeps a c b h) (filled a)
    where
      filled :
          (a' : Text)
          → (if p x && is_nil (a' ++ c ∷ trim_right p b)
              then []
              else x ∷ (a' ++ c ∷ trim_right p b))
            ≡ x ∷ (a' ++ c ∷ trim_right p b)
      filled [] = ground arith
      filled (y ∷ a') = ground arith

-- What stands between two runes that are no white space is not touched by `strings.TrimSpace`.
pub trim_space_keeps :
    (a b : Text) (c d : ℕ) (s : Text)
    → is_space c ≡ false
    → is_space d ≡ false
    → trim_space (a ++ c ∷ (s ++ d ∷ b))
      ≡ trim_left is_space a ++ c ∷ (s ++ d ∷ trim_right is_space b)
unfolding trim_space
trim_space_keeps a b c d s hc hd =
    rw
      (
        trim_left_keeps is_space a c (s ++ d ∷ b) hc,
        ← append_assoc (trim_left is_space a) (c ∷ s) (d ∷ b),
      )
      (trim_right_keeps is_space (trim_left is_space a ++ c ∷ s) d b hd ∙ rw append_assoc)

pub trim_left-All : (p : ℕ → Bool) (Q : ℕ → Type 0) (s : Text) → All Q s → All Q (trim_left p s)
unfolding trim_left
trim_left-All p Q [] h = tt
trim_left-All p Q (c ∷ s) h = elim (Bool-cases (p c)) [
  | inl e ↦ rw e (trim_left-All p Q s h.1)
  | inr e ↦ rw e h
]

pub trim_right-All : (p : ℕ → Bool) (Q : ℕ → Type 0) (s : Text) → All Q s → All Q (trim_right p s)
unfolding trim_right
trim_right-All p Q [] h = tt
trim_right-All p Q (c ∷ s) h = elim (Bool-cases (p c && is_nil (trim_right p s))) [
  | inl e ↦ rw e tt
  | inr e ↦ rw e (h.0, trim_right-All p Q s h.1)
]

pub trim_space-All : (Q : ℕ → Type 0) (s : Text) → All Q s → All Q (trim_space s)
unfolding trim_space
trim_space-All Q s h = trim_right-All is_space Q _ (trim_left-All is_space Q s h)

-- Trimming twice changes nothing more.
pub trim_space_idem : (s : Text) → trim_space (trim_space s) ≡ trim_space s
unfolding trim_space trim_left trim_right
trim_space_idem [] = refl
trim_space_idem (c ∷ s) = elim (Bool-cases (is_space c)) [
  | inl e ↦ rw e (trim_space_idem s)
  | inr e ↦ rw e (rw e (rw e (rw e (rw (trim_right_idem is_space s)))))
]

trim_space-Blank : (b : Text) → Blank b → trim_space b ≡ []
unfolding trim_space trim_left trim_right
trim_space-Blank [] h = refl
trim_space-Blank (c ∷ b) (hc, hb) = rw hc (trim_space-Blank b hb)

-- White space behind a text is trimmed away.
pub trim_space-append : (s b : Text) → Blank b → trim_space (s ++ b) ≡ trim_space s
unfolding trim_space trim_left
trim_space-append [] b h = trim_space-Blank b h
trim_space-append (c ∷ s) b h = elim (Bool-cases (is_space c)) [
  | inl e ↦ rw e (trim_space-append s b h)
  | inr e ↦ rw e (trim_right-append is_space (c ∷ s) b h)
]

trim_right_word : (s : Text) → All (λ c. is_space c ≡ false) s → trim_right is_space s ≡ s
unfolding trim_right
trim_right_word [] h = refl
trim_right_word (c ∷ s) (hc, hs) = rw hc (rw (trim_right_word s hs))

-- A text with no white space is not touched.
pub trim_space_word : (s : Text) → All (λ c. is_space c ≡ false) s → trim_space s ≡ s
unfolding trim_space trim_left
trim_space_word [] h = unfold trim_right in refl
trim_space_word (c ∷ s) h = rw h.0 (trim_right_word (c ∷ s) h)

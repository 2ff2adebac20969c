-- ===== src/Strings/Split.antt =====
-- Splitting at a rune.
use querylynx.Base.{ℕ, false, List, [], ◌∷◌, ◌≡◌, refl, arith, ◌==◌, Bool-cases, inl, inr}
use querylynx.Strings.{Text, split}

-- A split has a first part.
pub split-parts :
    (s : Text) (sep : ℕ) → (part : Text) × (parts : List Text) × (split s sep ≡ part ∷ parts)
unfolding split
split-parts [] sep = ([], [], refl)
split-parts (c ∷ s) sep = elim (Bool-cases (c == sep)) [
  | inl h ↦ ([], split s sep, rw h)
  | inr h ↦ let (part, parts, e) = split-parts s sep in (c ∷ part, parts, rw h (rw e))
]

pub split_at_sep : (s : Text) (sep : ℕ) → split (sep ∷ s) sep ≡ [] ∷ split s sep
unfolding split
split_at_sep s sep = ground arith

pub split_in_part :
    (c : ℕ) (s : Text) (sep : ℕ) (part : Text) (parts : List Text)
    → (c == sep) ≡ false
    → split s sep ≡ part ∷ parts
    → split (c ∷ s) sep ≡ (c ∷ part) ∷ parts
unfolding split
split_in_part c s sep part parts h e = rw h (rw e)

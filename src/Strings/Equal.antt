-- ===== src/Strings/Equal.antt =====
-- Equality of texts.
use querylynx.Base.{true, false, ◌≢◌, [], ◌∷◌, ◌≡◌, ◌↔◌, refl, arith}
use querylynx.Strings.{Text, text_eq}

pub text_eq-eq : (s t : Text) → text_eq s t ≡ true → s ≡ t
unfolding text_eq
text_eq-eq [] [] h = refl
text_eq-eq [] (y ∷ t) h = cc
text_eq-eq (x ∷ s) [] h = cc
text_eq-eq (x ∷ s) (y ∷ t) h = ground (arith, text_eq-eq s t)

pub text_eq_refl : (s : Text) → text_eq s s ≡ true
unfolding text_eq
text_eq_refl [] = refl
text_eq_refl (x ∷ s) = ground (arith, text_eq_refl s)

-- `s == t` holds exactly for equal texts.
pub text_eq_iff : (s t : Text) → (text_eq s t ≡ true) ↔ (s ≡ t)
text_eq_iff s t = (text_eq-eq s t, λ e. rw e (text_eq_refl t))

pub text_eq-ne : (s t : Text) → text_eq s t ≡ false → s ≢ t
text_eq-ne s t h e = let same = (text_eq_iff s t).1 e in ground arith

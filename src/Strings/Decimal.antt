-- ===== src/Strings/Decimal.antt =====
-- Decimal numerals.
use querylynx.Base.{
  ℕ, zero, suc, ◌+◌, ◌/◌, ◌%◌, ◌≤◌, [], ◌∷◌, arith, ◌==◌, All, Bool-cases, inl, inr,
}
use querylynx.Strings.{Text, decimal, digits_onto}

abbrev pub IsDigit : ℕ → Type 0
IsDigit c = (b'0' ≤ c) × (c ≤ b'9')

digits_onto-IsDigit :
    (fuel n : ℕ) (out : Text) → All IsDigit out → All IsDigit (digits_onto fuel n out)
unfolding digits_onto
digits_onto-IsDigit zero n out h = h
digits_onto-IsDigit (suc fuel) n out h = elim (Bool-cases (n == 0)) [
  | inl e ↦ rw e h
  | inr e ↦ rw e (digits_onto-IsDigit fuel (n / 10) ((b'0' + n % 10) ∷ out) (omega arith, h))
]

-- A printed number is made of digits.
pub decimal-IsDigit : (n : ℕ) → All IsDigit (decimal n)
unfolding decimal
decimal-IsDigit zero = omega arith
decimal-IsDigit (suc n) = digits_onto-IsDigit (suc n) (suc n) [] tt

-- ===== src/Strings/Atoi.antt =====
-- strconv.Atoi, and that it reads a printed number back.
use querylynx.Base.{
  ℕ, zero, suc, ◌+◌, ◌-◌, ◌*◌, ◌/◌, ◌%◌, ◌^◌, ◌≤◌, ◌<◌, true, false, ◌&&◌, Option, none, some, [],
  ◌∷◌, All, ltb, leb, ◌==◌, if◌then◌else◌, ◌≡◌, refl, arith, Bool-cases, inl, inr, ap, ◌∙◌,
}
use querylynx.Base.Int.{ℤ, pos, negsuc}
use querylynx.Strings.{Text, decimal, digits_onto}
use querylynx.Strings.Decimal.{IsDigit, decimal-IsDigit}

unfoldable pub digits_value : ℕ → Text → Option ℕ
digits_value acc [] = some acc
digits_value acc (c ∷ s) =
    let rest = digits_value (10 * acc + (c - b'0')) s in
    if leb b'0' c && leb c b'9' then rest else none

numeral : Text → Option ℕ
unfolding digits_value
numeral [] = none
numeral (c ∷ s) = digits_value 0 (c ∷ s)

-- Within 64 bits, and with its sign.
positive : Option ℕ → Option ℤ
positive none = none
positive (some n) = if ltb n (2 ^ 63) then some (pos n) else none

negative : Option ℕ → Option ℤ
negative none = none
negative (some zero) = some (pos 0)
negative (some (suc n)) = if ltb n (2 ^ 63) then some (negsuc n) else none

unfoldable pub atoi : Text → Option ℤ
unfolding numeral positive negative
atoi [] = none
atoi (c ∷ s) =
    if c == b'-'
    then negative (numeral s)
    else if c == b'+'
    then positive (numeral s)
    else positive (numeral (c ∷ s))

the_zero : (n : ℕ) → n ≤ 0 → 0 ≡ n
the_zero n h = omega arith

in_range : (d : ℕ) → d < 10 → (leb b'0' (b'0' + d) && leb (b'0' + d) b'9') ≡ true
in_range d h = ground arith

whole : (n : ℕ) → 10 * (n / 10) + (b'0' + n % 10 - b'0') ≡ n
whole n = omega arith

one_digit :
    (n : ℕ) (out : Text) → digits_value (n / 10) ((b'0' + n % 10) ∷ out) ≡ digits_value n out
unfolding digits_value
one_digit n out = rw (in_range (n % 10) (omega arith)) (ap (λ k. digits_value k out) (whole n))

digits_value-digits_onto :
    (fuel n : ℕ) (out : Text)
    → n ≤ fuel
    → digits_value 0 (digits_onto fuel n out) ≡ digits_value n out
unfolding digits_value digits_onto
digits_value-digits_onto zero n out h = ap (λ k. digits_value k out) (the_zero n h)
digits_value-digits_onto (suc fuel) n out h = elim (Bool-cases (n == 0)) [
  | inl e ↦ rw e (ap (λ k. digits_value k out) (the_zero n (ground arith)))
  | inr e ↦ rw e (
      digits_value-digits_onto fuel (n / 10) ((b'0' + n % 10) ∷ out) (ground arith)
      ∙ one_digit n out)
]

positive_within : (n : ℕ) → n < 2 ^ 63 → positive (some n) ≡ some (pos n)
unfolding positive
positive_within n h = ground arith

first_digit : (c : ℕ) → IsDigit c → ((c == b'-') ≡ false) × ((c == b'+') ≡ false)
first_digit c h = (ground arith, ground arith)

atoi_digits :
    (n : ℕ) (s : Text)
    → All IsDigit s
    → digits_value 0 s ≡ some (suc n)
    → suc n < 2 ^ 63
    → atoi s ≡ some (pos (suc n))
unfolding atoi
atoi_digits n [] d e h = ground arith
atoi_digits n (c ∷ s) (dc, ds) e h =
    rw (first_digit c dc).0 (rw (first_digit c dc).1 (ap positive e ∙ positive_within (suc n) h))

-- A printed number is read back.
pub atoi-decimal : (n : ℕ) → n < 2 ^ 63 → atoi (decimal n) ≡ some (pos n)
unfolding atoi decimal
atoi-decimal zero h = unfold digits_value in refl
atoi-decimal (suc n) h =
    atoi_digits n _ (decimal-IsDigit (suc n))
      (digits_value-digits_onto (suc n) (suc n) [] (omega arith) ∙ unfold digits_value in refl) h

-- ===== src/Regex/Laws.antt =====
-- Searching for a match: where one is found behind a prefix, one is found in the whole text.
use querylynx.Base.{
  ℕ, Bool, true, false, Option, some, [], ◌∷◌, ◌++◌, ◌≡◌, refl, arith, All, ◌-◌, length,
  length-append, take, zero, ap,
}
use querylynx.Strings.{Text}
use querylynx.Regex.{
  Position, Matcher, class_at, one_of, many_at, many, some_of, match_here, find_all_from,
  matches_here, matches_from,
}

-- The rune before the end of a text.
abbrev pub last_rune : Option ℕ → Text → Option ℕ
last_rune before [] = before
last_rune before (c ∷ s) = last_rune (some c) s

pub matches_from-here :
    (m : Matcher) (before : Option ℕ) (s : Text)
    → matches_here m before s ≡ true
    → matches_from m before s ≡ true
unfolding matches_from
matches_from-here m before [] h = h
matches_from-here m before (c ∷ s) h = rw h

pub matches_from-cons :
    (m : Matcher) (before : Option ℕ) (c : ℕ) (s : Text)
    → matches_from m (some c) s ≡ true
    → matches_from m before (c ∷ s) ≡ true
unfolding matches_from
matches_from-cons m before c s h = ground arith

pub matches_from-append :
    (m : Matcher) (before : Option ℕ) (s t : Text)
    → matches_from m (last_rune before s) t ≡ true
    → matches_from m before (s ++ t) ≡ true
matches_from-append m before [] t h = h
matches_from-append m before (c ∷ s) t h =
    matches_from-cons m before c (s ++ t) (matches_from-append m (some c) s t h)

abbrev pub position : Option ℕ → Text → Text → Position
position before rest captured = record { before = before; rest = rest; captured = captured }

-- The text ends, or goes on with a rune outside the class.
abbrev pub Stops : (ℕ → Bool) → Text → Type 0
Stops cls [] = Unit
Stops cls (c ∷ s) = cls c ≡ false

many_at-run :
    (cls : ℕ → Bool) (w rest : Text) (before : Option ℕ) (captured : Text)
    (k : Position → Option Position) {r : Position}
    → All (λ c. cls c ≡ true) w
    → Stops cls rest
    → k (position (last_rune before w) rest captured) ≡ some r
    → many_at cls (w ++ rest) (position before (w ++ rest) captured) k ≡ some r
unfolding many_at
many_at-run cls [] [] before captured k hw hs e = e
many_at-run cls [] (c ∷ rest) before captured k hw hs e = rw (hs, many_at) e
many_at-run cls (c ∷ w) rest before captured k hw hs e =
    rw (hw.0, many_at) (rw (many_at-run cls w rest (some c) captured k hw.1 hs e))

-- A greedy run goes to the end of the class if what follows matches there.
pub some_of-run :
    (cls : ℕ → Bool) (c : ℕ) (w rest : Text) (before : Option ℕ) (captured : Text)
    (k : Position → Option Position) {r : Position}
    → All (λ x. cls x ≡ true) (c ∷ w)
    → Stops cls rest
    → k (position (last_rune (some c) w) rest captured) ≡ some r
    → some_of cls (position before (c ∷ (w ++ rest)) captured) k ≡ some r
unfolding some_of many one_of class_at
some_of-run cls c w rest before captured k hw hs e =
    rw hw.0 (many_at-run cls w rest (some c) captured k hw.1 hs e)

take-length : (s t : Text) → take (length s) (s ++ t) ≡ s
take-length [] t = refl
take-length (c ∷ s) t = ap (◌∷◌ c) (take-length s t)

-- What a group captures: the text before the one that is left.
pub take-append : (s t : Text) → take (length (s ++ t) - length t) (s ++ t) ≡ s
take-append s t =
    let n : length (s ++ t) - length t ≡ length s = omega (arith, length-append {0} s t) in
    rw n (take-length s t)

pub find_all_from_match :
    (m : Matcher) (before : Option ℕ) (c : ℕ) (s : Text) (p : Position)
    → match_here m before (c ∷ s) ≡ some p
    → find_all_from m zero before (c ∷ s)
      ≡ p.captured ∷ find_all_from m (length s - length p.rest) (some c) s
unfolding find_all_from
find_all_from_match m before c s p e = rw (e, find_all_from)

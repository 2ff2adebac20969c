-- ===== src/Utf8/Count.antt =====
-- Counting runes.
use querylynx.Base.{ℕ, zero, suc, ◌+◌, ◌-◌, ◌≤◌, ◌<◌, [], ◌∷◌, ◌++◌, ◌≡◌, refl, arith, length}
use querylynx.Utf8.{Bytes, byte_at, rune_size, first_size, count_from, rune_count}

count_from-length : (skip : ℕ) (s : Bytes) → count_from skip s ≤ length s
unfolding count_from
count_from-length skip [] = omega arith
count_from-length (suc skip) (b ∷ s) = omega (arith, count_from-length skip s)
count_from-length zero (b ∷ s) = omega (arith, count_from-length (first_size (b ∷ s) - 1) s)

-- There are at most as many runes as bytes.
pub rune_count-length : (s : Bytes) → rune_count s ≤ length s
unfolding rune_count
rune_count-length s = count_from-length 0 s

-- What begins with an ASCII byte, or is empty.
abbrev pub IsApart : Bytes → Type 0
IsApart s = byte_at 0 s < 0x80

cut_second : (a b c d : ℕ) → b < 0x80 → rune_size a b c d ≡ rune_size a 0 0 0
unfolding rune_size
cut_second a b c d h = ground arith

cut_third : (a b c d : ℕ) → c < 0x80 → rune_size a b c d ≡ rune_size a b 0 0
unfolding rune_size
cut_third a b c d h = ground arith

cut_fourth : (a b c d : ℕ) → d < 0x80 → rune_size a b c d ≡ rune_size a b c 0
unfolding rune_size
cut_fourth a b c d h = ground arith

-- A rune does not reach past the end, nor into what begins with an ASCII byte.
first_size-append : (b : ℕ) (s t : Bytes) → IsApart t → first_size (b ∷ s ++ t) ≡ first_size (b ∷ s)
unfolding first_size
first_size-append b [] t h = cut_second b (byte_at 0 t) (byte_at 1 t) (byte_at 2 t) h
first_size-append b (c ∷ []) t h = cut_third b c (byte_at 0 t) (byte_at 1 t) h
first_size-append b (c ∷ d ∷ []) t h = cut_fourth b c d (byte_at 0 t) h
first_size-append b (c ∷ d ∷ e ∷ s) t h = refl

first_size_fits : (b : ℕ) (s : Bytes) → first_size (b ∷ s) - 1 ≤ length s
unfolding first_size rune_size
first_size_fits b [] = ground arith
first_size_fits b (c ∷ []) = ground arith
first_size_fits b (c ∷ d ∷ []) = ground arith
first_size_fits b (c ∷ d ∷ e ∷ s) = ground arith

count_from-append :
    (skip : ℕ) (s t : Bytes)
    → skip ≤ length s
    → IsApart t
    → count_from skip (s ++ t) ≡ count_from skip s + count_from 0 t
unfolding count_from
count_from-append zero [] t h a = omega arith
count_from-append (suc skip) [] t h a = omega arith
count_from-append (suc skip) (b ∷ s) t h a = count_from-append skip s t (omega arith) a
count_from-append zero (b ∷ s) t h a =
    rw (first_size-append b s t a)
      (omega (arith, count_from-append (first_size (b ∷ s) - 1) s t (first_size_fits b s) a))

-- Runes are counted part by part where the second part begins with an ASCII byte.
pub rune_count-append :
    (s t : Bytes) → IsApart t → rune_count (s ++ t) ≡ rune_count s + rune_count t
unfolding rune_count
rune_count-append s t a = count_from-append 0 s t (omega arith) a

-- ===== src/Cli/Format.antt =====
-- What cmd/agent/main.go uses of the packages fmt and strings to lay out a line. A width is counted in
-- runes, and the text may be no valid UTF-8.
use querylynx.Base.{ℕ, zero, suc, ◌-◌, ◌∷◌, [], ◌++◌, ◌≡◌, refl, arith, ◌≤◌, length}
use querylynx.Utf8.{Bytes, rune_count, count_from}
use querylynx.Utf8.Count.{IsApart, rune_count-append, rune_count-length}

-- strings.Repeat for one byte
unfoldable pub repeat : ℕ → ℕ → Bytes
repeat b zero = []
repeat b (suc n) = b ∷ repeat b n

-- %-*s and %*s
unfoldable pub pad_right : ℕ → Bytes → Bytes
unfolding repeat rune_count
pad_right width s = s ++ repeat b' ' (width - rune_count s)

unfoldable pub pad_left : ℕ → Bytes → Bytes
unfolding repeat rune_count
pad_left width s = repeat b' ' (width - rune_count s) ++ s

pub length-repeat : (b n : ℕ) → length (repeat b n) ≡ n
unfolding repeat
length-repeat b zero = refl
length-repeat b (suc n) = omega (arith, length-repeat b n)

rune_count-blanks : (n : ℕ) → rune_count (repeat b' ' n) ≡ n
unfolding repeat rune_count count_from
rune_count-blanks zero = refl
rune_count-blanks (suc n) = omega (arith, rune_count-blanks n)

blanks-IsApart : (n : ℕ) → IsApart (repeat b' ' n)
unfolding repeat
blanks-IsApart zero = omega arith
blanks-IsApart (suc n) = omega arith

-- A text of at most `width` bytes is shown with exactly `width` runes.
pub rune_count-pad_right :
    (width : ℕ) (s : Bytes) → length s ≤ width → rune_count (pad_right width s) ≡ width
unfolding pad_right
rune_count-pad_right width s h =
    let blanks = width - rune_count s in
    omega (
      arith,
      rune_count-append s (repeat b' ' blanks) (blanks-IsApart blanks),
      rune_count-blanks blanks,
      rune_count-length s,
    )

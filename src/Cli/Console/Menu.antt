-- ===== src/Cli/Console/Menu.antt =====
-- What a menu answers.
use querylynx.Base.{
  ℕ, ◌^◌, ◌≤◌, ◌<◌, false, Option, none, some, List, [], ◌∷◌, ◌++◌, ◌≡◌, refl, arith, if◌then◌else◌,
  is_nil, All-map, ◌∙◌,
}
use querylynx.Base.Int.{ℤ, pos, negsuc}
use querylynx.Strings.{Text, decimal, is_space, trim_space}
use querylynx.Strings.Decimal.{IsDigit, decimal-IsDigit}
use querylynx.Strings.Trim.{Blank, trim_left-append, trim_space-append, trim_space_word}
use querylynx.Strings.Atoi.{atoi, atoi-decimal}
use querylynx.Utf8.{encode}
use querylynx.Cli.Console.{
  Console, Run, exited, finished, unfinished, print, scan, trimmed_or_exit, in_menu, choose,
}

digit-not_space : (c : ℕ) → IsDigit c → is_space c ≡ false
unfolding is_space
digit-not_space c h = ground arith

trim_space-blanks : (lead s : Text) → Blank lead → trim_space (lead ++ s) ≡ trim_space s
unfolding trim_space
trim_space-blanks lead s h = rw (trim_left-append is_space lead s h)

trim_space-decimal :
    (lead trail : Text) (n : ℕ)
    → Blank lead
    → Blank trail
    → trim_space (lead ++ (decimal n ++ trail)) ≡ decimal n
trim_space-decimal lead trail n hl ht =
    trim_space-blanks lead (decimal n ++ trail) hl
    ∙ trim_space-append (decimal n) trail ht
    ∙ trim_space_word (decimal n)
        (All-map IsDigit _ (decimal n) digit-not_space (decimal-IsDigit n))

not_nil : (s : Text) (z : ℤ) → atoi s ≡ some z → is_nil s ≡ false
unfolding atoi
not_nil [] z h = ground arith
not_nil (c ∷ s) z h = refl

in_menu_kept : (max def n : ℕ) → 1 ≤ n → n ≤ max → in_menu max def (some (pos n)) ≡ n
unfolding in_menu
in_menu_kept max def n lo hi = ground arith

in_menu-bounds :
    (max def : ℕ) (z : Option ℤ)
    → 1 ≤ def
    → def ≤ max
    → (1 ≤ in_menu max def z) × (in_menu max def z ≤ max)
unfolding in_menu
in_menu-bounds max def none lo hi = (lo, hi)
in_menu-bounds max def (some (negsuc n)) lo hi = (lo, hi)
in_menu-bounds max def (some (pos n)) lo hi = ground arith

-- An answer is one of the menu's.
abbrev pub IsAnswer : {W : Type 0} → ℕ → Run W ℕ → Type 0
IsAnswer max (exited code c) = code ≡ 0
IsAnswer max (finished n c) = (1 ≤ n) × (n ≤ max)
IsAnswer max unfinished = ⊥

module _ {W : Type 0} where
  chosen-IsAnswer :
      (max def : ℕ) (v : Text) (c : Console W)
      → 1 ≤ def
      → def ≤ max
      → IsAnswer max (finished (if is_nil v then def else in_menu max def (atoi v)) c)
  chosen-IsAnswer max def [] c lo hi = (lo, hi)
  chosen-IsAnswer max def (x ∷ v) c lo hi = in_menu-bounds max def (atoi (x ∷ v)) lo hi

  asked-IsAnswer :
      (label : Text) (max def : ℕ) (c : Console W) (lines : List Text)
      → 1 ≤ def
      → def ≤ max
      → IsAnswer max (choose label max def (record c { input = lines }))
  unfolding choose print scan trimmed_or_exit
  asked-IsAnswer label max def c [] lo hi = refl
  asked-IsAnswer label max def c (line ∷ lines) lo hi =
      chosen-IsAnswer max def (trim_space line) c lo hi

  answered :
      (label : Text) (max def n : ℕ) (c : Console W) (line : Text) (lines : List Text)
      → trim_space line ≡ decimal n
      → 1 ≤ n
      → n ≤ max
      → max < 2 ^ 63
      → choose label max def (record c { input = line ∷ lines })
        ≡ finished n (record { input = lines; output = c.output ++ encode label; world = c.world })
  unfolding choose print scan trimmed_or_exit
  answered label max def n c line lines e lo hi small =
      let value = atoi-decimal n (omega arith) in
      rw e (rw (not_nil (decimal n) (pos n) value) (rw value (rw (in_menu_kept max def n lo hi))))

  -- A menu from 1 to `max` with a default in it: whatever the input is, the answer is in the menu, or the
  -- program exits with code 0.
  pub choose-IsAnswer :
      (label : Text) (max def : ℕ) (c : Console W)
      → 1 ≤ def
      → def ≤ max
      → IsAnswer max (choose label max def c)
  choose-IsAnswer label max def c lo hi = asked-IsAnswer label max def c c.input lo hi

  -- A menu answers with a number from 1 to `max`, at most what an int holds, when the next line is this
  -- number in decimal with any white space around it. It reads this line and no more, prints its label,
  -- and leaves the world alone.
  pub choose-decimal :
      (label : Text) (max def n : ℕ) (c : Console W) (lead trail : Text) (lines : List Text)
      → Blank lead
      → Blank trail
      → 1 ≤ n
      → n ≤ max
      → max < 2 ^ 63
      → choose label max def (record c { input = (lead ++ (decimal n ++ trail)) ∷ lines })
        ≡ finished n (record { input = lines; output = c.output ++ encode label; world = c.world })
  choose-decimal label max def n c lead trail lines hl ht from to small =
      answered label max def n c _ lines (trim_space-decimal lead trail n hl ht) from to small

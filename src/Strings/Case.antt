-- ===== src/Strings/Case.antt =====
-- Case mapping and white space.
use querylynx.Base.{
  ℕ, ◌+◌, ◌-◌, ◌≤◌, Bool, true, false, ◌&&◌, ◌||◌, List, [], ◌∷◌, ◌++◌, ◌≡◌, refl, sym, ap, ◌∙◌,
  subst, arith, ltb, leb, if◌then◌else◌,
}
use querylynx.Strings.CaseRange.{CaseRange, up, down, map_rune}
use querylynx.Strings.UpperTable.{upper_table}
use querylynx.Strings.{Text, is_space, upper_rune, to_upper}
use querylynx.Strings.Trim.{Blank}
use querylynx.Strings.Search.{IsWord}

-- No white space from `lo` to `hi`.
abbrev apart : ℕ → ℕ → ℕ → Bool
apart lo hi space = ltb space lo || ltb hi space

free_of_space : ℕ → ℕ → Bool
free_of_space lo hi =
    (ltb hi 9 || ltb 13 lo)
    && apart lo hi 0x20
    && apart lo hi 0x85
    && apart lo hi 0xa0
    && apart lo hi 0x1680
    && (ltb hi 0x2000 || ltb 0x200a lo)
    && apart lo hi 0x2028
    && apart lo hi 0x2029
    && apart lo hi 0x202f
    && apart lo hi 0x205f
    && apart lo hi 0x3000

free_of_space_lem :
    (lo hi c : ℕ) → free_of_space lo hi ≡ true → lo ≤ c → c ≤ hi → is_space c ≡ false
unfolding free_of_space is_space
free_of_space_lem lo hi c h below above = ground arith

keeps_space : List CaseRange → Bool
keeps_space [] = true
keeps_space (up first last step delta ∷ table) =
    free_of_space first last && free_of_space (first + delta) (last + delta) && keeps_space table
keeps_space (down first last step delta ∷ table) =
    free_of_space first last && free_of_space (first - delta) (last - delta) && keeps_space table

map_rune-is_space :
    (table : List CaseRange) (c : ℕ)
    → keeps_space table ≡ true
    → is_space (map_rune table c) ≡ is_space c
unfolding keeps_space map_rune
map_rune-is_space [] c h = refl
map_rune-is_space (up first last step delta ∷ table) c h = ground (
  arith,
  map_rune-is_space table c,
  free_of_space_lem first last c,
  free_of_space_lem (first + delta) (last + delta) (c + delta),
)
map_rune-is_space (down first last step delta ∷ table) c h = ground (
  arith,
  map_rune-is_space table c,
  free_of_space_lem first last c,
  free_of_space_lem (first - delta) (last - delta) (c - delta),
)

upper_table-keeps_space : keeps_space upper_table ≡ true
unfolding keeps_space free_of_space upper_table
upper_table-keeps_space = refl

ascii_upper-is_space :
    (c : ℕ) → is_space (if leb b'a' c && leb c b'z' then c - 32 else c) ≡ is_space c
unfolding is_space
ascii_upper-is_space c = ground arith

pub upper_rune-is_space : (c : ℕ) → is_space (upper_rune c) ≡ is_space c
unfolding upper_rune
upper_rune-is_space c =
    ground (arith, ascii_upper-is_space c, map_rune-is_space upper_table c upper_table-keeps_space)

to_upper-Blank : (s : Text) → Blank (to_upper s) → Blank s
unfolding to_upper
to_upper-Blank [] h = tt
to_upper-Blank (c ∷ s) (hc, hs) = (sym (upper_rune-is_space c) ∙ hc, to_upper-Blank s hs)

to_upper-IsWord : (s : Text) → IsWord (to_upper s) → IsWord s
unfolding to_upper
to_upper-IsWord [] h = tt
to_upper-IsWord (c ∷ s) (hc, hs) = (sym (upper_rune-is_space c) ∙ hc, to_upper-IsWord s hs)

-- A prefix of an upper-cased text is an upper-cased prefix.
to_upper-prefix :
    (s a b : Text)
    → to_upper s ≡ a ++ b
    → (a' b' : Text) × (s ≡ a' ++ b') × (to_upper a' ≡ a) × (to_upper b' ≡ b)
unfolding to_upper
to_upper-prefix s [] b e = ([], s, refl, refl, e)
to_upper-prefix [] (x ∷ a) b e = absurd (cc)
to_upper-prefix (c ∷ s) (x ∷ a) b e =
    let (a', b', split, ha, hb) = to_upper-prefix s a b (cc) in
    (c ∷ a', b', ap (◌∷◌ c) split, cc, hb)

-- If an upper-cased text is blank, then a word, then more, so is the text itself.
pub to_upper-word :
    (s lead word rest : Text)
    → to_upper s ≡ lead ++ (word ++ rest)
    → Blank lead
    → IsWord word
    → (lead' word' rest' : Text) × (s ≡ lead' ++ (word' ++ rest'))
      × Blank lead'
      × IsWord word'
      × (to_upper word' ≡ word)
      × (to_upper rest' ≡ rest)
to_upper-word s lead word rest e hl hw =
    let (lead', more, split, el, em) = to_upper-prefix s lead (word ++ rest) e in
    let (word', rest', split', ew, er) = to_upper-prefix more word rest em in
    (
      lead',
      word',
      rest',
      split ∙ ap (λ t. lead' ++ t) split',
      to_upper-Blank lead' (subst Blank (sym el) hl),
      to_upper-IsWord word' (subst IsWord (sym ew) hw),
      ew,
      er,
    )

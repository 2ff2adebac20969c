-- ===== src/Safety/Strip.antt =====
-- What stripping a query takes away: white space before it, white space and semicolons behind it.
use querylynx.Base.{
  ℕ, Bool, true, ◌||◌, [], ◌∷◌, ◌++◌, ◌≡◌, refl, ap, ◌∙◌, arith, ◌==◌, All, All-append, Bool-cases,
  inl, inr, append_assoc,
}
use querylynx.Strings.{Text, is_space, trim_space, trim_suffix}
use querylynx.Strings.Trim.{Blank, trim_space-splits}
use querylynx.Safety.{strip}

-- White space or a semicolon.
abbrev pub ends_word : ℕ → Bool
ends_word c = is_space c || c == b';'

abbrev pub IsTail : Text → Type 0
IsTail = All (λ c. ends_word c ≡ true)

Blank-IsTail : (s : Text) → Blank s → IsTail s
Blank-IsTail [] h = tt
Blank-IsTail (c ∷ s) (hc, hs) = (rw hc, Blank-IsTail s hs)

trim_suffix-splits : (s : Text) → (tail : Text) × (s ≡ trim_suffix s b';' ++ tail) × IsTail tail
unfolding trim_suffix
trim_suffix-splits [] = ([], refl, tt)
trim_suffix-splits (c ∷ []) = elim (Bool-cases (c == b';')) [
  | inl h ↦ (c ∷ [], rw h, (ground arith, tt))
  | inr h ↦ ([], rw h, tt)
]
trim_suffix-splits (c ∷ d ∷ s) =
    let (tail, e, t) = trim_suffix-splits (d ∷ s) in (tail, ap (◌∷◌ c) e, t)

regroup :
    (a b c d e f : Text) → a ++ ((b ++ (c ++ d)) ++ e ++ f) ≡ (a ++ b) ++ (c ++ (d ++ (e ++ f)))
regroup a b c d e f = simp append_assoc

pub strip-splits :
    (q : Text) → (lead tail : Text) × (q ≡ lead ++ (strip q ++ tail)) × Blank lead × IsTail tail
unfolding strip
strip-splits q =
    let (lead, trail, e, hl, ht) = trim_space-splits q in
    let (tail, e', ht') = trim_suffix-splits (trim_space q) in
    let (lead', trail', e'', hl', ht'') = trim_space-splits (trim_suffix (trim_space q) b';') in
    (
      lead ++ lead',
      trail' ++ (tail ++ trail),
      e
          ∙ ap (λ t. lead ++ (t ++ trail)) (e' ∙ ap (λ t. t ++ tail) e'')
          ∙ regroup lead lead' (strip q) trail' tail trail,
      All-append _ lead lead' hl hl',
      All-append _ trail' (tail ++ trail) (Blank-IsTail trail' ht'')
          (All-append _ tail trail ht' (Blank-IsTail trail ht)),
    )

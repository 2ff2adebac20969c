-- ===== src/Sql/Normalize.antt =====
-- `normalizeTableRef`.
use querylynx.Base.{ℕ, false, [], ◌∷◌, ◌++◌, ◌≡◌, refl, ap, ◌∙◌, ◌==◌, ==_refl, append_assoc}
use querylynx.Strings.{Text, trim, trim_left, trim_right}
use querylynx.Strings.Trim.{trim_left_keep, trim_right_keeps, trim_right-append}
use querylynx.Strings.Index.{Lacks, last_index-append, last_index-none}
use querylynx.Sql.{normalize_table_ref, after_dot}

pub trim_right-Lacks : (q : ℕ) (s : Text) → Lacks q s → trim_right (λ x. x == q) s ≡ s
unfolding trim_right
trim_right-Lacks q [] h = refl
trim_right-Lacks q (c ∷ s) (hc, hs) = rw hc (ap (◌∷◌ c) (trim_right-Lacks q s hs))

pub trim-Lacks : (q : ℕ) (s : Text) → Lacks q s → trim s q ≡ s
unfolding trim trim_left
trim-Lacks q [] h = unfold trim_right in refl
trim-Lacks q (c ∷ s) h = rw h.0 (trim_right-Lacks q (c ∷ s) h)

pub trim_quoted : (q : ℕ) (s : Text) → Lacks q s → trim (q ∷ s) q ≡ s
unfolding trim trim_left
trim_quoted q s h = rw ==_refl (unfold trim in trim-Lacks q s h)

trim_around : (q : ℕ) (s : Text) → Lacks q s → trim (q ∷ (s ++ q ∷ [])) q ≡ s
unfolding trim trim_left
trim_around q [] h = rw ==_refl (unfold trim_right in refl)
trim_around q (c ∷ s) h = rw ==_refl (
    rw h.0 (
      trim_right-append (λ x. x == q) (c ∷ s) (q ∷ []) (==_refl q, tt)
      ∙ trim_right-Lacks q (c ∷ s) h))

-- A text between a rune that is not cut and a last run that is cut.
pub trim_behind :
    (q c d : ℕ) (s t : Text)
    → (c == q) ≡ false
    → (d == q) ≡ false
    → Lacks q t
    → trim (c ∷ (s ++ d ∷ (t ++ q ∷ []))) q ≡ c ∷ (s ++ d ∷ t)
unfolding trim
trim_behind q c d s t hc hd ht = rw (trim_left_keep (λ x. x == q) c _ hc) (
    trim_right_keeps (λ x. x == q) (c ∷ s) d (t ++ q ∷ []) hd
    ∙ ap (λ u. c ∷ (s ++ d ∷ u))
        (trim_right-append (λ x. x == q) t (q ∷ []) (==_refl q, tt) ∙ trim_right-Lacks q t ht))

-- A qualifier that does not begin with a quote, a dot and a quoted name without quotes and dots are
-- normalised to the name.
pub normalize_table_ref_qualified :
    (c d : ℕ) (qualifier name : Text)
    → (c == b'"') ≡ false
    → Lacks b'"' (d ∷ name)
    → Lacks b'.' (d ∷ name)
    → normalize_table_ref (c ∷ (qualifier ++ b'.' ∷ b'"' ∷ d ∷ (name ++ b'"' ∷ []))) ≡ d ∷ name
unfolding normalize_table_ref
normalize_table_ref_qualified c d qualifier name hc hn hd =
    let bare : trim (c ∷ (qualifier ++ b'.' ∷ b'"' ∷ d ∷ (name ++ b'"' ∷ []))) b'"'
        ≡ c ∷ (qualifier ++ b'.' ∷ b'"' ∷ d ∷ name) =
      rw
        (
          ← append_assoc qualifier (b'.' ∷ b'"' ∷ []) (d ∷ (name ++ b'"' ∷ [])),
          ← append_assoc qualifier (b'.' ∷ b'"' ∷ []) (d ∷ name),
        )
        (trim_behind b'"' c d (qualifier ++ b'.' ∷ b'"' ∷ []) name hc hn.0 hn.1) in
    let dot = last_index-append b'.' (c ∷ qualifier) (b'"' ∷ d ∷ name) (refl, hd) in
    rw bare (rw (dot, after_dot) (trim_quoted b'"' (d ∷ name) hn))

-- A quoted name with no qualifier.
pub normalize_table_ref_quoted :
    (name : Text)
    → Lacks b'"' name
    → Lacks b'.' name
    → normalize_table_ref (b'"' ∷ (name ++ b'"' ∷ [])) ≡ name
unfolding normalize_table_ref
normalize_table_ref_quoted name hn hd =
    rw (trim_around b'"' name hn)
      (rw (last_index-none b'.' name hd, after_dot) (trim-Lacks b'"' name hn))

-- A reference that ends in a dot and a quote has no name.
pub normalize_table_ref_dotted :
    (c : ℕ) (qualifier : Text)
    → (c == b'"') ≡ false
    → normalize_table_ref (c ∷ (qualifier ++ b'.' ∷ b'"' ∷ [])) ≡ []
unfolding normalize_table_ref
normalize_table_ref_dotted c qualifier hc = rw (trim_behind b'"' c b'.' qualifier [] hc refl tt) (
    rw (last_index-append b'.' (c ∷ qualifier) [] tt, after_dot)
      (unfold trim trim_left trim_right in refl))

-- ===== src/Strings/Search.antt =====
-- Searches: a split at an occurrence gives the text back; fields and their first element.
use querylynx.Base.{
  ℕ, true, false, List, [], ◌∷◌, ◌++◌, ◌≡◌, refl, sym, ap, ◌∙◌, All, inl, inr, Bool-cases,
  append_assoc, append-nil,
}
use querylynx.Strings.{Text, is_space, add_field, fields_from, fields}
use querylynx.Strings.Trim.{Blank}

-- The text ends, or goes on with white space.
abbrev pub AtSpace : Text → Type 0
AtSpace [] = Unit
AtSpace (c ∷ s) = is_space c ≡ true

abbrev pub IsWord : Text → Type 0
IsWord = All (λ c. is_space c ≡ false)

-- The first field of a text: leading white space, the field, and what follows.
pub record FirstField (s field : Text) : Type 0 where
  pub lead : Text
  pub rest : Text
  pub splits : s ≡ lead ++ (field ++ rest)
  pub lead_blank : Blank lead
  pub field_word : IsWord field
  pub rest_space : AtSpace rest

fields_from_space :
    (field : Text) (c : ℕ) (s : Text)
    → is_space c ≡ true
    → fields_from field (c ∷ s) ≡ add_field field (fields_from [] s)
unfolding fields_from
fields_from_space field c s h = rw (h, fields_from)

fields_from_word :
    (field : Text) (c : ℕ) (s : Text)
    → is_space c ≡ false
    → fields_from field (c ∷ s) ≡ fields_from (field ++ c ∷ []) s
unfolding fields_from
fields_from_word field c s h = rw (h, fields_from)

-- How a field that is being read goes on to the next white space.
record FieldEnd (c : ℕ) (field s : Text) : Type 0 where
  word : Text
  rest : Text
  more : List Text
  read : fields_from (c ∷ field) s ≡ (c ∷ (field ++ word)) ∷ more
  splits : s ≡ word ++ rest
  is_word : IsWord word
  rest_space : AtSpace rest

field_end : (c : ℕ) (field s : Text) → FieldEnd c field s
field_end c field [] = record {
  word = [];
  rest = [];
  more = [];
  read = unfold fields_from in rw append-nil;
  splits = refl;
  is_word = tt;
  rest_space = tt;
}
field_end c field (x ∷ s) = elim (Bool-cases (is_space x)) [
  | inl h ↦ record {
    word = [];
    rest = x ∷ s;
    more = fields_from [] s;
    read = fields_from_space (c ∷ field) x s h ∙ rw append-nil;
    splits = refl;
    is_word = tt;
    rest_space = h;
  }
  | inr h ↦
      let f = field_end c (field ++ x ∷ []) s in
      record {
        word = x ∷ f.word;
        rest = f.rest;
        more = f.more;
        read =
            fields_from_word (c ∷ field) x s h
            ∙ f.read
            ∙ ap (λ t. (c ∷ t) ∷ f.more) (append_assoc field (x ∷ []) f.word);
        splits = ap (◌∷◌ x) f.splits;
        is_word = (h, f.is_word);
        rest_space = f.rest_space;
      }
]

fields_from-FirstField :
    (s field : Text) (more : List Text) → fields_from [] s ≡ field ∷ more → FirstField s field
fields_from-FirstField [] field more e = absurd (unfold fields_from in cc)
fields_from-FirstField (c ∷ s) field more e = elim (Bool-cases (is_space c)) [
  | inl h ↦
      let f = fields_from-FirstField s field more (sym (fields_from_space [] c s h) ∙ e) in
      record {
        lead = c ∷ f.lead;
        rest = f.rest;
        splits = ap (◌∷◌ c) f.splits;
        lead_blank = (h, f.lead_blank);
        field_word = f.field_word;
        rest_space = f.rest_space;
      }
  | inr h ↦
      let f = field_end c [] s in
      let same : field ≡ c ∷ f.word = cc (sym (fields_from_word [] c s h) ∙ e, f.read) in
      record {
        lead = [];
        rest = f.rest;
        splits = rw same (ap (◌∷◌ c) f.splits);
        lead_blank = tt;
        field_word = rw same (h, f.is_word);
        rest_space = f.rest_space;
      }
]

-- The first field of a text that has one.
pub fields-FirstField :
    (s field : Text) (more : List Text) → fields s ≡ field ∷ more → FirstField s field
unfolding fields
fields-FirstField = fields_from-FirstField

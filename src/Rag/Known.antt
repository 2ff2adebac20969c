-- ===== src/Rag/Known.antt =====
-- `filterKnown`: which names it keeps.
use querylynx.Base.{
  Bool, true, false, ◌||◌, ◌&&◌, Option, none, some, List, [], ◌∷◌, ◌++◌, ◌≡◌, refl, sym, ◌∙◌,
  arith, map, map-append, subst, append_assoc, Bool-cases, Option-cases, inl, inr, All, All-append,
}
use querylynx.Strings.{Text, text_eq, to_lower, trim_space}
use querylynx.Strings.Equal.{text_eq-eq}
use querylynx.Dict.{Dict, get, put, flag, get-put, flag-put, flag-nil}
use querylynx.Schema.{Schema, Table, table_names}
use querylynx.Strings.Names.{
  contains, contains-append, contains_one, contains_self, contains-map, IsDistinct,
  IsDistinct-concat,
}
use querylynx.Rag.{Kept, known_names, keep_canon, keep_known, filter_known}

record IsKept (tables : List Text) (k : Kept) : Type 0 where
  distinct : IsDistinct k.out
  are_tables : All (λ n. contains tables n ≡ true) k.out
  marked : (n : Text) → flag n k.seen ≡ contains k.out n

keep_canon-IsKept :
    (tables : List Text) (canon : Text) (k : Kept)
    → contains tables canon ≡ true
    → IsKept tables k
    → IsKept tables (keep_canon (some canon) k)
unfolding keep_canon
keep_canon-IsKept tables canon k here h = elim (Bool-cases (flag canon k.seen)) [
  | inl old ↦ rw old h
  | inr new ↦ rw new (record {
    distinct = IsDistinct-concat k.out canon h.distinct (sym (h.marked canon) ∙ new);
    are_tables = All-append _ k.out (canon ∷ []) h.are_tables (here, tt);
    marked = λ n. ground (
      arith,
      flag-put canon n k.seen,
      contains-append k.out (canon ∷ []) n,
      contains_one canon n,
      h.marked n,
    );
  })
]

keep_known-IsKept :
    (tables : List Text) (known : Dict Text) (names : List Text) (k : Kept)
    → ((key canon : Text) → get key known ≡ some canon → contains tables canon ≡ true)
    → IsKept tables k
    → IsKept tables (keep_known known names k)
unfolding keep_known
keep_known-IsKept tables known [] k sound h = h
keep_known-IsKept tables known (n ∷ names) k sound h =
    keep_known-IsKept tables known names _ sound
      (elim (Option-cases (get (to_lower (trim_space n)) known)) [
        | inl e ↦ rw e h
        | inr (canon, e) ↦ rw e (keep_canon-IsKept tables canon k (sound _ canon e) h)
      ])

known_names-tables :
    (tables : List Text) (ts : List Table) (known : Dict Text)
    → All (λ t. contains tables t.name ≡ true) ts
    → ((key canon : Text) → get key known ≡ some canon → contains tables canon ≡ true)
    → (key canon : Text) → get key (known_names ts known) ≡ some canon
    → contains tables canon ≡ true
unfolding known_names
known_names-tables tables [] known hs sound = sound
known_names-tables tables (t ∷ ts) known (ht, hs) sound =
    known_names-tables tables ts (put (to_lower t.name) t.name known) hs
      λ key canon e. ground (arith, get-put (to_lower t.name) key t.name known, sound key canon)

-- The key of a canonical name is that name in lower case.
abbrev KeysFold : Dict Text → Type 0
KeysFold known = (key canon : Text) → get key known ≡ some canon → to_lower canon ≡ key

known_names-KeysFold :
    (ts : List Table) (known : Dict Text) → KeysFold known → KeysFold (known_names ts known)
unfolding known_names
known_names-KeysFold [] known h = h
known_names-KeysFold (t ∷ ts) known h =
    known_names-KeysFold ts (put (to_lower t.name) t.name known) λ key canon e. ground (
      arith,
      get-put (to_lower t.name) key t.name known,
      text_eq-eq (to_lower t.name) key,
      h key canon,
    )

abbrev is_known : Option Text → Bool
is_known none = false
is_known (some c) = true

known_names-keys :
    (ts : List Table) (known : Dict Text) (key : Text)
    → is_known (get key (known_names ts known))
      ≡ (contains (map to_lower (table_names ts)) key || is_known (get key known))
unfolding known_names contains
known_names-keys [] known key = refl
known_names-keys (t ∷ ts) known key =
    known_names-keys ts (put (to_lower t.name) t.name known) key ∙ rw get-put (ground arith)

All-tables :
    (before : List Text) (ts : List Table)
    → All (λ t. contains (before ++ table_names ts) t.name ≡ true) ts
All-tables before [] = tt
All-tables before (t ∷ ts) = (
  contains_self before (table_names ts) t.name,
  subst (λ names. All (λ u. contains names u.name ≡ true) ts)
      (append_assoc before (t.name ∷ []) (table_names ts)) (All-tables (before ++ t.name ∷ []) ts),
)

nothing-IsKept : {tables : List Text} → IsKept tables (record { out = []; seen = [] })
unfolding contains
nothing-IsKept = record { distinct = tt; are_tables = tt; marked = flag-nil }

get-nil : (key : Text) {canon : Text} → get key [] ≡ some canon → ⊥
unfolding get
get-nil key e = cc

-- Every name that `filterKnown` returns is the name of a table, and no name comes twice.
pub filter_known_sound :
    (names : List Text) (s : Schema)
    → All (λ n. contains (table_names s.tables) n ≡ true) (filter_known names s)
      × IsDistinct (filter_known names s)
unfolding filter_known
filter_known_sound names s =
    let sound =
      known_names-tables (table_names s.tables) s.tables [] (All-tables [] s.tables)
        (λ key canon e. absurd (get-nil key e)) in
    let kept =
      keep_known-IsKept (table_names s.tables) (known_names s.tables []) names
        (record { out = []; seen = [] }) sound nothing-IsKept in
    (kept.are_tables, kept.distinct)

keep_canon-keys :
    (known : Dict Text) (asked key : Text) (k : Kept)
    → KeysFold known
    → ((n : Text) → flag n k.seen ≡ contains k.out n)
    → contains (map to_lower (keep_canon (get asked known) k).out) key
      ≡ (contains (map to_lower k.out) key || text_eq asked key && is_known (get key known))
unfolding keep_canon
keep_canon-keys known asked key k folds marked = elim (Option-cases (get asked known)) [
  | inl e ↦ rw e (ground (arith, text_eq-eq asked key))
  | inr (canon, e) ↦ elim (Bool-cases (flag canon k.seen)) [
    | inl old ↦
        rw (e, old)
          (ground (
            arith,
            folds asked canon e,
            marked canon,
            text_eq-eq asked key,
            contains-map to_lower k.out canon,
          ))
    | inr new ↦
        rw (e, new)
          (rw (map-append, contains-append)
            (ground (
              arith,
              folds asked canon e,
              contains_one (to_lower canon) key,
              text_eq-eq asked key,
            )))
  ]
]

-- The key under which a name from the model is looked up.
abbrev pub lookup_key : Text → Text
lookup_key n = to_lower (trim_space n)

keep_canon_step :
    (tables : List Text) (known : Dict Text) (asked : Text) (k : Kept)
    → ((key canon : Text) → get key known ≡ some canon → contains tables canon ≡ true)
    → IsKept tables k
    → IsKept tables (keep_canon (get asked known) k)
keep_canon_step tables known asked k sound h = elim (Option-cases (get asked known)) [
  | inl e ↦ rw e (unfold keep_canon in h)
  | inr (canon, e) ↦ rw e (keep_canon-IsKept tables canon k (sound asked canon e) h)
]

keep_known-keys :
    (tables : List Text) (known : Dict Text) (names : List Text) (key : Text) (k : Kept)
    → KeysFold known
    → ((key canon : Text) → get key known ≡ some canon → contains tables canon ≡ true)
    → IsKept tables k
    → contains (map to_lower (keep_known known names k).out) key ≡ (
        contains (map to_lower k.out) key
        || contains (map lookup_key names) key && is_known (get key known))
unfolding keep_known contains
keep_known-keys tables known [] key k folds sound h = ground arith
keep_known-keys tables known (n ∷ names) key k folds sound h =
    keep_known-keys tables known names key (keep_canon (get (lookup_key n) known) k) folds sound
      (keep_canon_step tables known (lookup_key n) k sound h)
    ∙ rw (keep_canon-keys known (lookup_key n) key k folds h.marked) (ground arith)

-- A name is, in lower case, among those that filterKnown keeps exactly if it is, trimmed and in
-- lower case, among the proposed ones and, in lower case, among the tables' names.
pub filter_known-keys :
    (names : List Text) (s : Schema) (key : Text)
    → contains (map to_lower (filter_known names s)) key
      ≡ (contains (map lookup_key names) key && contains (map to_lower (table_names s.tables)) key)
unfolding filter_known
filter_known-keys names s key =
    let sound =
      known_names-tables (table_names s.tables) s.tables [] (All-tables [] s.tables)
        (λ key canon e. absurd (get-nil key e)) in
    let folds = known_names-KeysFold s.tables [] (λ key canon e. absurd (get-nil key e)) in
    keep_known-keys (table_names s.tables) (known_names s.tables []) names key
      (record { out = []; seen = [] }) folds sound nothing-IsKept
    ∙ rw known_names-keys (unfold get contains in ground arith)

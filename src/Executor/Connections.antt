-- ===== src/Executor/Connections.antt =====
-- The map of the open connections, as a one-to-one relation of ids and connectors.
use querylynx.Base.{
  Bool, true, false, not, ◌&&◌, ◌||◌, none, some, [], ◌∷◌, ◌≡◌, refl, ◌∙◌, arith, ◌==◌, Bool-cases,
  inl, inr,
}
use querylynx.Strings.{Text, text_eq}
use querylynx.Strings.Equal.{text_eq-eq}
use querylynx.Dict.{Dict, get, remove, get-remove}
use querylynx.Connector.{Ref}

-- The connector stands in the map.
unfoldable pub holds : Dict Ref → Ref → Bool
holds [] r = false
holds ((k, c) ∷ m) r = c == r || holds m r

abbrev pub IsOneToOne : Dict Ref → Type 0
IsOneToOne [] = Unit
IsOneToOne ((k, c) ∷ m) = (get k m ≡ none) × (holds m c ≡ false) × IsOneToOne m

pub get-holds : (k : Text) (m : Dict Ref) (c : Ref) → get k m ≡ some c → holds m c ≡ true
unfolding get holds
get-holds k [] c e = cc
get-holds k ((j, d) ∷ m) c e = elim (Bool-cases (text_eq j k)) [
  | inl h ↦ ground arith
  | inr h ↦ rw (get-holds k m c (rw h at e)) (ground arith)
]

pub remove-missing : (k : Text) (m : Dict Ref) → get k m ≡ none → remove k m ≡ m
unfolding get remove
remove-missing k [] e = refl
remove-missing k ((j, d) ∷ m) e = elim (Bool-cases (text_eq j k)) [
  | inl h ↦ absurd (ground arith)
  | inr h ↦ rw (h, remove-missing k m (rw h at e))
]

holds-remove_missing :
    (k : Text) (m : Dict Ref) (r : Ref) → holds m r ≡ false → holds (remove k m) r ≡ false
unfolding holds remove
holds-remove_missing k [] r e = refl
holds-remove_missing k ((j, d) ∷ m) r e = ground (arith, holds-remove_missing k m r)

pub IsOneToOne-remove : (k : Text) (m : Dict Ref) → IsOneToOne m → IsOneToOne (remove k m)
unfolding remove
IsOneToOne-remove k [] h = tt
IsOneToOne-remove k ((j, d) ∷ m) (new_id, new_ref, h) = elim (Bool-cases (text_eq j k)) [
  | inl e ↦ rw e (IsOneToOne-remove k m h)
  | inr e ↦
      rw e (
        get-remove k j m ∙ ground arith,
        holds-remove_missing k m d new_ref,
        IsOneToOne-remove k m h,
      )
]

-- Of the connectors, `remove` drops the one that it finds.
pub holds-remove :
    (k : Text) (m : Dict Ref) (c r : Ref)
    → IsOneToOne m
    → get k m ≡ some c
    → holds (remove k m) r ≡ (holds m r && not (c == r))
unfolding holds remove get
holds-remove k [] c r h e = cc
holds-remove k ((j, d) ∷ m) c r (new_id, new_ref, h) e = elim (Bool-cases (text_eq j k)) [
  | inl same ↦
      let missing : get k m ≡ none = rw (← text_eq-eq j k same) new_id in
      let this : d ≡ c = ground arith in
      rw (same, remove-missing k m missing, ← this) (ground arith)
  | inr other ↦
      let found : get k m ≡ some c = rw other at e in
      let there = get-holds k m c found in rw (other, holds-remove k m c r h found) (ground arith)
]

-- ===== src/Dict.antt =====
-- Go's map with string keys, as an association list. The program never ranges over a map, so the
-- order of the entries is not modelled.
use querylynx.Base.{
  Bool, true, false, Option, none, some, List, [], ◌∷◌, ◌≡◌, refl, arith, if◌then◌else◌,
}
use querylynx.Strings.{Text, text_eq}
use querylynx.Strings.Equal.{text_eq-eq, text_eq_refl}

abbrev pub Dict {ℓ} : Type ℓ → Type ℓ
Dict V = List (Text × V)

module _ {ℓ} {V : Type ℓ} where
  -- m[k], with its second result
  unfoldable pub get : Text → Dict V → Option V
  get k [] = none
  get k ((j, v) ∷ m) = let rest = get k m in if text_eq j k then some v else rest

  -- delete(m, k)
  unfoldable pub remove : Text → Dict V → Dict V
  remove k [] = []
  remove k ((j, v) ∷ m) = let rest = remove k m in if text_eq j k then rest else (j, v) ∷ rest

  -- m[k] = v
  unfoldable pub put : Text → V → Dict V → Dict V
  put k v m = (k, v) ∷ remove k m

  pub get-remove :
      (k j : Text) (m : Dict V) → get j (remove k m) ≡ (if text_eq k j then none else get j m)
  unfolding get remove
  get-remove k j [] = ground arith
  get-remove k j ((i, v) ∷ m) =
      ground
        (arith, get-remove k j m, text_eq-eq i k, text_eq-eq i j, text_eq-eq k j, text_eq_refl j)

  pub get-put :
      (k j : Text) (v : V) (m : Dict V)
      → get j (put k v m) ≡ (if text_eq k j then some v else get j m)
  unfolding get put
  get-put k j v m = ground (arith, get-remove k j m)

  pub get-put_self : (k : Text) (v : V) (m : Dict V) → get k (put k v m) ≡ some v
  unfolding get put
  get-put_self k v m = rw (text_eq_refl k)

-- m[k] for a map of flags: a missing key reads false.
abbrev flag_or_false : Option Bool → Bool
flag_or_false (some b) = b
flag_or_false none = false

unfoldable pub flag : Text → Dict Bool → Bool
flag k m = flag_or_false (get k m)

pub flag-put :
    (k j : Text) (m : Dict Bool) → flag j (put k true m) ≡ (if text_eq k j then true else flag j m)
unfolding flag
flag-put k j m = rw get-put (ground arith)

pub flag-nil : (k : Text) → flag k [] ≡ false
unfolding flag get
flag-nil k = refl

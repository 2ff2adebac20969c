-- ===== src/Strings/CaseRange.antt =====
-- An entry of the case tables of Go's package unicode (`CaseRange`), and its lookup.
use querylynx.Base.{ℕ, ◌+◌, ◌-◌, ◌%◌, Bool, ◌&&◌, List, [], ◌∷◌, leb, ◌==◌, if◌then◌else◌}

-- `up first last step delta`: every `step`-th rune from `first` to `last` maps `delta` higher.
pub data CaseRange : Type 0 where
  up : ℕ → ℕ → ℕ → ℕ → CaseRange
  down : ℕ → ℕ → ℕ → ℕ → CaseRange

abbrev covers : ℕ → ℕ → ℕ → ℕ → Bool
covers first last step r = leb first r && leb r last && (r - first) % step == 0

-- A rune that no entry covers maps to itself.
unfoldable pub map_rune : List CaseRange → ℕ → ℕ
map_rune [] r = r
map_rune (up first last step delta ∷ table) r =
    let other = map_rune table r in if covers first last step r then r + delta else other
map_rune (down first last step delta ∷ table) r =
    let other = map_rune table r in if covers first last step r then r - delta else other

-- ===== src/Client/Decode.antt =====
-- internal/executorclient/client.go: what `call` makes of a tool's result. The transport's answer and
-- the two decodings by encoding/json are parameters.
use querylynx.Base.{
  Bool, false, Option, none, some, List, [], ◌∷◌, ◌++◌, ◌≡◌, ◌≢◌, ◌⊎◌, ◌∙◌, ap, ℕ, All, refl, arith,
  Result, ok, err, if◌then◌else◌, Bool-cases, inl, inr,
}
use querylynx.Strings.{Text, codes}

pub data Content : Type 0 where
  text_content : Text → Content
  other_content : Content

-- A tool's result, with its structured content if there is one.
pub record ToolResult (J : Type 0) : Type 0 where
  pub is_error : Bool
  pub structured : Option J
  pub content : List Content

all_text : List Content → Text
all_text [] = []
all_text (text_content t ∷ more) = t ++ all_text more
all_text (other_content ∷ more) = all_text more

or_unknown : Text → Text
or_unknown [] = codes "unknown executor error"
or_unknown (c ∷ t) = c ∷ t

unfoldable pub content_error : List Content → Text
unfolding all_text or_unknown
content_error content = or_unknown (all_text content)

-- The first text that is not empty.
unfoldable pub first_text : List Content → Option Text
first_text [] = none
first_text (other_content ∷ more) = first_text more
first_text (text_content [] ∷ more) = first_text more
first_text (text_content (c ∷ t) ∷ more) = some (c ∷ t)

cons-ne-nil : (c : ℕ) (s : Text) → (c ∷ s) ≢ []
cons-ne-nil c s e = ground arith

-- A text that has content and stands behind contents that have no text.
abbrev pub NoText : Content → Type 0
NoText (text_content t) = t ≡ []
NoText other_content = Unit

abbrev pub IsFirstText : List Content → Text → Type 0
IsFirstText content t =
    (before after : List Content) × (content ≡ before ++ text_content t ∷ after)
    × All NoText before
    × (t ≢ [])

IsFirstText-behind :
    (c : Content) (content : List Content) (t : Text)
    → NoText c
    → IsFirstText content t
    → IsFirstText (c ∷ content) t
IsFirstText-behind c content t h (before, after, same, blank, full) =
    (c ∷ before, after, ap (λ rest. c ∷ rest) same, (h, blank), full)

first_text-IsFirstText :
    (content : List Content) (t : Text) → first_text content ≡ some t → IsFirstText content t
unfolding first_text
first_text-IsFirstText [] t h = absurd (ground arith)
first_text-IsFirstText (other_content ∷ more) t h =
    IsFirstText-behind other_content more t tt (first_text-IsFirstText more t h)
first_text-IsFirstText (text_content [] ∷ more) t h =
    IsFirstText-behind (text_content []) more t refl (first_text-IsFirstText more t h)
first_text-IsFirstText (text_content (c ∷ s) ∷ more) t h =
    let same : (c ∷ s) ≡ t = cc in
    ([], more, rw same refl, tt, λ e. absurd (cons-ne-nil c s (same ∙ e)))

module _ {J Out : Type 0} (decode_json : J → Result Text Out)
    (decode_text : Text → Result Text Out) where
  decode_first : Option Text → Result Text Out
  decode_first (some t) = decode_text t
  decode_first none = err (codes "no structured content in tool result")

  decode_value : Option J → Option Text → Result Text Out
  unfolding decode_first
  decode_value (some j) first = decode_json j
  decode_value none first = decode_first first

  unfoldable pub decode_structured : ToolResult J → Result Text Out
  unfolding decode_value
  decode_structured res = decode_value res.structured (first_text res.content)

  decoded : Text → Result Text Out → Result Text Out
  decoded name (ok out) = ok out
  decoded name (err e) = err (codes "executorclient: decode " ++ (name ++ (codes " output: " ++ e)))

  tool_result : Text → ToolResult J → Result Text Out
  unfolding decoded
  tool_result name res =
      if res.is_error
      then err (codes "executor " ++ (name ++ (codes ": " ++ content_error res.content)))
      else decoded name (decode_structured res)

  unfoldable pub call : Text → Result Text (ToolResult J) → Result Text Out
  unfolding tool_result
  call name (err e) = err (codes "executorclient: call " ++ (name ++ (codes ": " ++ e)))
  call name (ok res) = tool_result name res

  -- Where a value was read from.
  abbrev pub ReadFrom : ToolResult J → Out → Type 0
  ReadFrom res out =
      ((j : J) × (res.structured ≡ some j) × (decode_json j ≡ ok out))
      ⊎ ((t : Text) × (res.structured ≡ none)
          × IsFirstText res.content t
          × (decode_text t ≡ ok out))

  decode_value-ok :
      (structured : Option J) (first : Option Text) (out : Out)
      → decode_value structured first ≡ ok out
      → ((j : J) × (structured ≡ some j) × (decode_json j ≡ ok out))
        ⊎ ((t : Text) × (structured ≡ none) × (first ≡ some t) × (decode_text t ≡ ok out))
  unfolding decode_value decode_first
  decode_value-ok (some j) first out h = inl (j, refl, h)
  decode_value-ok none (some t) out h = inr (t, refl, refl, h)
  decode_value-ok none none out h = absurd (ground arith)

  read_from :
      (res : ToolResult J) {out : Out}
      → ((j : J) × (res.structured ≡ some j) × (decode_json j ≡ ok out))
        ⊎ ((t : Text) × (res.structured ≡ none)
            × (first_text res.content ≡ some t)
            × (decode_text t ≡ ok out))
      → ReadFrom res out
  read_from res (inl from) = inl from
  read_from res (inr (t, missing, first, read)) =
      inr (t, missing, first_text-IsFirstText res.content t first, read)

  decoded-ok :
      (name : Text) (r : Result Text Out) (out : Out) → decoded name r ≡ ok out → r ≡ ok out
  unfolding decoded
  decoded-ok name (ok o) out h = h
  decoded-ok name (err e) out h = absurd (ground arith)

  tool_result-ReadFrom :
      (name : Text) (res : ToolResult J) (out : Out)
      → tool_result name res ≡ ok out
      → (res.is_error ≡ false) × ReadFrom res out
  unfolding tool_result decode_structured
  tool_result-ReadFrom name res out h = elim (Bool-cases res.is_error) [
    | inl e ↦ absurd (ground arith)
    | inr e ↦ (
      e,
      read_from res (
          decode_value-ok res.structured (first_text res.content) out
            (decoded-ok name _ out (rw e at h))),
    )
  ]

  call_result-ReadFrom :
      (name : Text) (answer : Result Text (ToolResult J)) (out : Out)
      → call name answer ≡ ok out
      → (res : ToolResult J) × (answer ≡ ok res) × (res.is_error ≡ false) × ReadFrom res out
  unfolding call
  call_result-ReadFrom name (err e) out h = absurd (ground arith)
  call_result-ReadFrom name (ok res) out h =
      let (fine, from) = tool_result-ReadFrom name res out h in (res, refl, fine, from)

-- If a call of a tool returns a value, the transport brought a result that is not marked as an error, and
-- the value is decoded from its structured content or, if it has none, from its first text that is not
-- empty.
pub call-ReadFrom :
    {J Out : Type 0} (decode_json : J → Result Text Out) (decode_text : Text → Result Text Out)
    (name : Text) (answer : Result Text (ToolResult J)) {out : Out}
    → call decode_json decode_text name answer ≡ ok out
    → (res : ToolResult J) × (answer ≡ ok res)
      × (res.is_error ≡ false)
      × ReadFrom decode_json decode_text res out
call-ReadFrom decode_json decode_text name answer {out} h =
    call_result-ReadFrom decode_json decode_text name answer out h

-- ===== src/Llm/Generate/Answers.antt =====
-- What a request carries, and what is made of its answer.
use querylynx.Base.{
  ℕ, ◌==◌, true, false, some, List, [], ◌∷◌, ◌++◌, if◌then◌else◌, ◌≡◌, ◌↔◌, inl, inr, refl, sym, ap,
  subst, ◌∙◌, Result, ok, err, append_assoc, append-nil, arith, Bool-cases,
}
use querylynx.Strings.{Text, codes, text_eq, decimal}
use querylynx.Utf8.{Bytes, encode}
use querylynx.Context.{Context}
use querylynx.Json.{unmarshal_strings}
use querylynx.Json.Encode.{marshal_string, unmarshal-marshal_string}
use querylynx.Llm.{Vendor, anthropic, openai, Settings}
use querylynx.Llm.Generate.{
  Request, request, request_of, generate_of, anthropic_generate, openai_generate, anthropic_request,
  openai_request, anthropic_body, openai_body, messages, HttpError, Http, Block, Decoder, written,
  block_text, first_choice, max_tokens, exchanged, generate,
}

-- The texts of the blocks of kind text, one after the other.
abbrev pub text_of : List Block → Text
text_of [] = []
text_of (b ∷ blocks) = (if text_eq b.kind (codes "text") then b.text else []) ++ text_of blocks

written-text_of : (text : Text) (blocks : List Block) → written text blocks ≡ text ++ text_of blocks
unfolding written
written-text_of text [] = rw append-nil refl
written-text_of text (b ∷ blocks) = elim (Bool-cases (text_eq b.kind (codes "text"))) [
  | inl e ↦ rw e (written-text_of (text ++ b.text) blocks ∙ rw append_assoc refl)
  | inr e ↦ rw e (written-text_of text blocks)
]

-- The answer's body says the text.
abbrev pub Says : Decoder → Vendor → Bytes → Text → Type 0
Says decoder anthropic body t =
    (blocks : List Block) × (decoder.blocks body ≡ ok blocks) × (t ≡ text_of blocks)
Says decoder openai body t = (more : List Text) × (decoder.choices body ≡ ok (t ∷ more))

block_text_iff :
    (r : Result Text (List Block)) (t : Text)
    → (block_text r ≡ ok t) ↔ ((blocks : List Block) × (r ≡ ok blocks) × (t ≡ text_of blocks))
unfolding block_text
block_text_iff (err e) t = (λ h. absurd (ground arith), λ (blocks, h, same). absurd (ground arith))
block_text_iff (ok blocks) t = (
  λ h. (blocks, refl, ok_same t (written [] blocks) h ∙ written-text_of [] blocks),
  λ (blocks', h, same).
      ap ok (written-text_of [] blocks ∙ ap text_of (oks_same blocks blocks' h) ∙ sym same),
)
  where
    ok_same : (a b : Text) → ◌≡◌ {A = Result Text Text} (ok b) (ok a) → a ≡ b
    ok_same a b h = ground arith

    oks_same : (a b : List Block) → ◌≡◌ {A = Result Text (List Block)} (ok a) (ok b) → a ≡ b
    oks_same a b h = ground arith

first_choice_iff :
    (r : Result Text (List Text)) (t : Text)
    → (first_choice r ≡ ok t) ↔ ((more : List Text) × (r ≡ ok (t ∷ more)))
unfolding first_choice
first_choice_iff (err e) t = (λ h. absurd (ground arith), λ (more, h). absurd (ground arith))
first_choice_iff (ok []) t = (λ h. absurd (ground arith), λ (more, h). absurd (ground arith))
first_choice_iff (ok (c ∷ choices)) t = (λ h. (choices, ground arith), λ (more, h). ground arith)

exchanged_iff :
    (name : Text) (read : Bytes → Result Text Text) (answer : Result HttpError (ℕ × Bytes))
    (t : Text)
    → (exchanged name read answer ≡ ok t)
      ↔ ((body : Bytes) × (answer ≡ ok (200, body)) × (read body ≡ ok t))
unfolding exchanged
exchanged_iff name read (err e) t =
    (λ h. absurd (ground arith), λ (body, h, good). absurd (ground arith))
exchanged_iff name read (ok (status, body)) t = elim (Bool-cases (status == 200)) [
  | inl e ↦ rw e (
    λ h. (body, ap (λ n. ok (n, body)) (equal e), h),
    λ (body', h, good). ap read (parts body' h).1 ∙ good,
  )
  | inr e ↦
      rw e (λ h. absurd (ground arith), λ (body', h, good). absurd (differ e (parts body' h).0))
]
  where
    equal : (status == 200) ≡ true → status ≡ 200
    equal h = ground arith

    differ : (status == 200) ≡ false → status ≡ 200 → ⊥
    differ h k = ground arith

    parts :
        (body' : Bytes)
        → ◌≡◌ {A = Result HttpError (ℕ × Bytes)} (ok (status, body)) (ok (200, body'))
        → (status ≡ 200) × (body ≡ body')
    parts body' h = ground arith

generate_of_iff :
    {W : Type 0} (http : Http W) (decoder : Decoder) (vendor : Vendor) (s : Settings)
    (ctx : Context) (w : W) (prompt t : Text)
    → ((generate_of http decoder vendor s ctx w prompt).0 ≡ ok t) ↔ (
        (body : Bytes) × ((http.exchange ctx (request_of vendor s prompt) w).0 ≡ ok (200, body))
        × Says decoder vendor body t)
unfolding generate_of anthropic_generate openai_generate request_of
generate_of_iff http decoder anthropic s ctx w prompt t =
    let (forth, back) =
      exchanged_iff (codes "anthropic") (λ body. block_text (decoder.blocks body)) _ t in
    (
      λ h.
          let (body, e, good) = forth h in
          (body, e, (block_text_iff (decoder.blocks body) t).0 good),
      λ (body, e, says). back (body, e, (block_text_iff (decoder.blocks body) t).1 says),
    )
generate_of_iff http decoder openai s ctx w prompt t =
    let (forth, back) =
      exchanged_iff (codes "openai") (λ body. first_choice (decoder.choices body)) _ t in
    (
      λ h.
          let (body, e, good) = forth h in
          (body, e, (first_choice_iff (decoder.choices body) t).0 good),
      λ (body, e, says). back (body, e, (first_choice_iff (decoder.choices body) t).1 says),
    )

-- A provider's Generate returns a text exactly if the exchange for its request comes back with status 200
-- and a body that says the text: with Anthropic the texts of the body's blocks of kind text, one after
-- the other; with OpenAI the content of its first choice.
pub generate_iff :
    {W : Type 0} (http : Http W) (decoder : Decoder) (s : Settings) (ctx : Context) (w : W)
    (prompt t : Text)
    → ((generate http decoder s ctx w prompt).0 ≡ ok t) ↔ (
        (body : Bytes) × ((http.exchange ctx (request s prompt) w).0 ≡ ok (200, body))
        × Says decoder s.vendor body t)
unfolding generate request
generate_iff http decoder s ctx w prompt t = generate_of_iff http decoder s.vendor s ctx w prompt t

-- The body holds a string that is read back as the text.
abbrev pub Carries : Text → Bytes → Type 0
Carries text body =
    (before string after : Text) × (body ≡ encode (before ++ (string ++ after)))
    × (unmarshal_strings (b'[' ∷ (string ++ b']' ∷ [])) ≡ some (text ∷ []))

regrouped : (a b c d e : Text) → a ++ ((b ++ (c ++ d)) ++ e) ≡ (a ++ b) ++ (c ++ (d ++ e))
regrouped a b c d e = simp append_assoc

grouped : (a b c d : Text) → a ++ (b ++ (c ++ d)) ≡ (a ++ (b ++ c)) ++ d
grouped a b c d = simp append_assoc

messages-Carries :
    (before prompt after : Text) → Carries prompt (encode (before ++ (messages prompt ++ after)))
unfolding messages
messages-Carries before prompt after = (
  before ++ codes "\"messages\":[{\"content\":",
  marshal_string prompt,
  codes ",\"role\":\"user\"}]" ++ after,
  ap encode (regrouped before _ (marshal_string prompt) _ after),
  unmarshal-marshal_string prompt,
)

-- What is claimed of a request, with the one for another key.
abbrev IsRequest : Settings → Text → Request → Request → Type 0
IsRequest s prompt r other = (r.url ≡ s.base_url) × Carries prompt r.body × (other.body ≡ r.body)

request_of-IsRequest :
    (vendor : Vendor) (s : Settings) (prompt key : Text)
    → IsRequest s prompt
        (request_of vendor s prompt)
        (request_of vendor (record s { api_key = key }) prompt)
unfolding request_of anthropic_request openai_request anthropic_body openai_body
request_of-IsRequest anthropic s prompt key = (
  refl,
  subst (λ b. Carries prompt (encode b))
      (sym (grouped (codes "{\"max_tokens\":") (decimal max_tokens) (codes ",") _))
      (messages-Carries (codes "{\"max_tokens\":" ++ (decimal max_tokens ++ codes ",")) prompt _),
  refl,
)
request_of-IsRequest openai s prompt key = (refl, messages-Carries (codes "{") prompt _, refl)

-- The request of a provider goes to its URL; its body holds the prompt, whatever is in it, as a JSON
-- string that is read back as this prompt; and the body does not depend on the API key.
pub request-Carries :
    (s : Settings) (prompt key : Text)
    → ((request s prompt).url ≡ s.base_url)
      × Carries prompt (request s prompt).body
      × ((request (record s { api_key = key }) prompt).body ≡ (request s prompt).body)
unfolding request
request-Carries s prompt key = request_of-IsRequest s.vendor s prompt key

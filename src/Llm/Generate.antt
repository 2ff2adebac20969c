-- ===== src/Llm/Generate.antt =====
-- internal/llm/anthropic/anthropic.go and internal/llm/openai/openai.go: `Generate`. The HTTP exchange and
-- the reading of the answer's JSON are parameters.
pub mod Answers
use querylynx.Base.{
  ℕ, ◌==◌, Option, none, some, List, [], ◌∷◌, ◌++◌, if◌then◌else◌, Result, ok, err,
}
use querylynx.Strings.{Text, codes, text_eq, decimal}
use querylynx.Utf8.{Bytes, encode, decode}
use querylynx.Context.{Context}
use querylynx.Json.Encode.{marshal_string}
use querylynx.Rag.{Provider}
use querylynx.Llm.{Vendor, anthropic, openai, Settings, vendor_name, truncate}

pub record Request : Type 0 where
  pub url : Text
  pub headers : List (Text × Text)
  pub body : Bytes

-- The steps of an exchange that can fail: to make the request, to send it, and to read the answer.
pub data HttpError : Type 0 where
  not_made not_sent not_read : Text → HttpError

-- A request's status and body.
pub record Http (W : Type 0) : Type 0 where
  pub exchange : Context → Request → W → Result HttpError (ℕ × Bytes) × W

pub record Block : Type 0 where
  pub kind : Text
  pub text : Text

-- json.Unmarshal into the two answers' structs: the content's blocks, and the choices' contents.
pub record Decoder : Type 0 where
  pub blocks : Bytes → Result Text (List Block)
  pub choices : Bytes → Result Text (List Text)

abbrev pub api_version : Text
api_version = codes "2023-06-01"

abbrev pub max_tokens : ℕ
max_tokens = 4096

-- json.Marshal of the request's map: its keys come in alphabetical order.
messages : Text → Text
messages prompt =
    codes "\"messages\":[{\"content\":" ++ (marshal_string prompt ++ codes ",\"role\":\"user\"}]")

anthropic_body : Text → Text → Text
unfolding messages
anthropic_body model prompt =
    codes "{\"max_tokens\":"
    ++ (decimal max_tokens
        ++ (codes ","
            ++ (messages prompt ++ (codes ",\"model\":" ++ (marshal_string model ++ codes "}")))))

openai_body : Text → Text → Text
unfolding messages
openai_body model prompt =
    codes "{" ++ (messages prompt ++ (codes ",\"model\":" ++ (marshal_string model ++ codes "}")))

anthropic_headers : Text → List (Text × Text)
anthropic_headers key =
    (codes "content-type", codes "application/json")
    ∷ (codes "x-api-key", key)
    ∷ (codes "anthropic-version", api_version)
    ∷ []

openai_headers : Text → List (Text × Text)
openai_headers key =
    (codes "content-type", codes "application/json")
    ∷ (codes "authorization", codes "Bearer " ++ key)
    ∷ []

anthropic_request : Settings → Text → Request
unfolding anthropic_body anthropic_headers encode
anthropic_request s prompt = record {
  url = s.base_url;
  headers = anthropic_headers s.api_key;
  body = encode (anthropic_body s.model_id prompt);
}

openai_request : Settings → Text → Request
unfolding openai_body openai_headers encode
openai_request s prompt = record {
  url = s.base_url;
  headers = openai_headers s.api_key;
  body = encode (openai_body s.model_id prompt);
}

http_message : HttpError → Text
http_message (not_made e) = codes ": new request: " ++ e
http_message (not_sent e) = codes ": do request: " ++ e
http_message (not_read e) = codes ": read response: " ++ e

-- The loop over the blocks, with what the builder holds.
unfoldable pub written : Text → List Block → Text
unfolding text_eq
written text [] = text
written text (b ∷ blocks) =
    written (if text_eq b.kind (codes "text") then text ++ b.text else text) blocks

block_text : Result Text (List Block) → Result Text Text
unfolding written
block_text (err e) = err (codes "anthropic: unmarshal response: " ++ e)
block_text (ok blocks) = ok (written [] blocks)

first_choice : Result Text (List Text) → Result Text Text
first_choice (err e) = err (codes "openai: unmarshal response: " ++ e)
first_choice (ok []) = err (codes "openai: response contained no choices")
first_choice (ok (content ∷ choices)) = ok content

-- What both make of an exchange, with the name in the messages and the reading of a good body.
exchanged : Text → (Bytes → Result Text Text) → Result HttpError (ℕ × Bytes) → Result Text Text
unfolding http_message truncate decode decimal
exchanged name read (err e) = err (name ++ http_message e)
exchanged name read (ok (status, body)) =
    if status == 200
    then read body
    else err
        (name ++ codes ": status " ++ decimal status ++ codes ": " ++ decode (truncate body 300))

module _ {W : Type 0} (http : Http W) (decoder : Decoder) where
  anthropic_generate : Settings → Context → W → Text → Result Text Text × W
  unfolding exchanged block_text anthropic_request
  anthropic_generate s ctx w prompt =
      let (answer, w') = http.exchange ctx (anthropic_request s prompt) w in
      (exchanged (vendor_name anthropic) (λ body. block_text (decoder.blocks body)) answer, w')

  openai_generate : Settings → Context → W → Text → Result Text Text × W
  unfolding exchanged first_choice openai_request
  openai_generate s ctx w prompt =
      let (answer, w') = http.exchange ctx (openai_request s prompt) w in
      (exchanged (vendor_name openai) (λ body. first_choice (decoder.choices body)) answer, w')

-- The request and `Generate` of the provider with the settings `s`.
request_of : Vendor → Settings → Text → Request
unfolding anthropic_request openai_request
request_of anthropic s prompt = anthropic_request s prompt
request_of openai s prompt = openai_request s prompt

unfoldable pub request : Settings → Text → Request
unfolding request_of
request s prompt = request_of s.vendor s prompt

generate_of :
    {W : Type 0} → Http W → Decoder → Vendor → Settings → Context → W → Text → Result Text Text × W
unfolding anthropic_generate openai_generate
generate_of http decoder anthropic s ctx w prompt = anthropic_generate http decoder s ctx w prompt
generate_of http decoder openai s ctx w prompt = openai_generate http decoder s ctx w prompt

unfoldable pub generate :
    {W : Type 0} → Http W → Decoder → Settings → Context → W → Text → Result Text Text × W
unfolding generate_of
generate http decoder s ctx w prompt = generate_of http decoder s.vendor s ctx w prompt

unfoldable pub provider : {W : Type 0} → Http W → Decoder → Settings → Provider W
unfolding generate
provider http decoder s = record { generate = generate http decoder s }

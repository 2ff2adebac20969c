-- ===== src/Tests/Client.antt =====
-- A tool's result whose structured content is missing.
use querylynx.Base.{true, false, none, [], ◌∷◌, ◌≡◌, refl, Result, ok, err, ℕ}
use querylynx.Strings.{Text, codes}
use querylynx.Client.Decode.{
  ToolResult, text_content, other_content, content_error, first_text, decode_structured, call,
  ReadFrom, call-ReadFrom,
}

abbrev from_json : ℕ → Result Text Text
from_json j = err (codes "not a text")

abbrev from_text : Text → Result Text Text
from_text t = ok t

abbrev fallback : ToolResult ℕ
fallback = record {
  is_error = false;
  structured = none;
  content = other_content ∷ text_content [] ∷ text_content (codes "{}") ∷ [];
}

abbrev answer : Result Text (ToolResult ℕ)
answer = ok fallback

call_second_text : call from_json from_text (codes "introspect") (ok fallback) ≡ ok (codes "{}")
unfolding call decode_structured first_text
call_second_text = refl

call_error :
    call from_json from_text
      (codes "introspect")
      (ok (record fallback { is_error = true; content = [] }))
    ≡ err (codes "executor introspect: unknown executor error")
unfolding call content_error
call_error = refl

call-ReadFrom_example :
    (res : ToolResult ℕ) × (answer ≡ ok res)
    × (res.is_error ≡ false)
    × ReadFrom from_json from_text res (codes "{}")
call-ReadFrom_example =
    call-ReadFrom from_json from_text (codes "introspect") answer call_second_text

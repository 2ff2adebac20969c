-- ===== src/Tests/Llm.antt =====
-- Providers and keys.
use querylynx.Utf8.{Bytes}
use querylynx.Context.{background}
use querylynx.Llm.Generate.{Http, Decoder, request, generate}
use querylynx.Llm.Generate.Answers.{Says, Carries, generate_iff, request-Carries}
use querylynx.Base.{ℕ, suc, ◌↔◌, ◌∷◌, ◌≤◌, ◌≡◌, refl, [], ok, err, length}
use querylynx.Strings.{codes}
use querylynx.Llm.{
  Config, Settings, openai, anthropic, new_provider, default_model_id, default_url, redact_key,
  coming_soon,
}
use querylynx.Llm.Laws.{IsConfigured, new_provider-IsConfigured, redact_key-hides}
use querylynx.Tests.Running.{run_executor, run_generate}

abbrev cfg : Config
cfg = record { api_key = codes "sk-1234"; model_id = [] }

abbrev settings : Settings
settings = record {
  vendor = openai;
  api_key = codes "sk-1234";
  model_id = default_model_id openai;
  base_url = default_url openai;
}

new_provider_openai : new_provider (codes "openai") cfg ≡ ok settings
unfolding run_executor
new_provider_openai = refl

new_provider-IsConfigured_example : IsConfigured (codes "openai") cfg settings
new_provider-IsConfigured_example =
    new_provider-IsConfigured (codes "openai") cfg new_provider_openai

new_provider_gemini : new_provider (codes "gemini") cfg ≡ err (coming_soon (codes "gemini"))
unfolding run_executor
new_provider_gemini = refl

redact_key-hides_example :
    (redact_key (codes "sk-1234") ≡ redact_key (codes "sk-1999999"))
    × (length (redact_key (codes "sk-1234")) ≤ 7)
redact_key-hides_example =
    redact_key-hides (codes "sk-1234") (codes "sk-1999999") (λ long. refl) refl

-- An exchange that answers with one block of text between two others.
abbrev web : Http ℕ
web = record { exchange = λ ctx r w. (ok (200, codes "body"), suc w) }

abbrev decoder : Decoder
decoder = record {
  blocks = λ body. ok (
      record { kind = codes "text"; text = codes "SELECT" }
      ∷ record { kind = codes "tool_use"; text = codes "x" }
      ∷ record { kind = codes "text"; text = codes " 1" }
      ∷ []);
  choices = λ body. ok [];
}

abbrev claude : Settings
claude = record settings { vendor = anthropic }

generate_claude : generate web decoder claude background 0 (codes "hi") ≡ (ok (codes "SELECT 1"), 1)
unfolding run_generate
generate_claude = refl

generate_no_choices :
    generate web decoder settings background 0 (codes "hi")
    ≡ (err (codes "openai: response contained no choices"), 1)
unfolding run_generate
generate_no_choices = refl

request_quoted :
    (request settings (codes "a \"b\"\n<")).body
    ≡ codes
        "{\"messages\":[{\"content\":\"a \\\"b\\\"\\n\\u003c\",\"role\":\"user\"}],\"model\":\"gpt-4o-mini\"}"
unfolding run_generate
request_quoted = refl

generate_iff_example :
    ((generate web decoder claude background 0 (codes "hi")).0 ≡ ok (codes "SELECT 1")) ↔ (
      (body : Bytes) × ((web.exchange background (request claude (codes "hi")) 0).0
        ≡ ok (200, body))
      × Says decoder anthropic body (codes "SELECT 1"))
generate_iff_example = generate_iff web decoder claude background 0 (codes "hi") (codes "SELECT 1")

request-Carries_example :
    ((request settings (codes "\"hi\"")).url ≡ default_url openai)
    × Carries (codes "\"hi\"") (request settings (codes "\"hi\"")).body
    × ((request (record settings { api_key = codes "other" }) (codes "\"hi\"")).body
        ≡ (request settings (codes "\"hi\"")).body)
request-Carries_example = request-Carries settings (codes "\"hi\"") (codes "other")

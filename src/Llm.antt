-- ===== src/Llm.antt =====
-- internal/llm: the choice of a provider, its defaults, and what is shown of a key and of an answer. The
-- HTTP exchange itself is a parameter.
pub mod Laws
pub mod Generate
use querylynx.Base.{
  ℕ, Bool, List, [], ◌∷◌, ◌++◌, ◌≡◌, Result, ok, err, leb, length, take, is_nil, if◌then◌else◌,
}
use querylynx.Strings.{Text, codes, text_eq}
use querylynx.Utf8.{Bytes}

pub record Config : Type 0 where
  pub api_key : Text
  pub model_id : Text

pub data Vendor : Type 0 where
  anthropic openai : Vendor

abbrev pub vendor_name : Vendor → Text
vendor_name anthropic = codes "anthropic"
vendor_name openai = codes "openai"

-- What a provider keeps of its configuration.
pub record Settings : Type 0 where
  pub vendor : Vendor
  pub api_key : Text
  pub model_id : Text
  pub base_url : Text

-- The errors, with the provider that their messages print.
pub data ProviderError : Type 0 where
  key_required : Vendor → ProviderError
  coming_soon unknown_provider : Text → ProviderError

abbrev pub default_model_id : Vendor → Text
default_model_id anthropic = codes "claude-haiku-4-5-20251001"
default_model_id openai = codes "gpt-4o-mini"

abbrev pub default_url : Vendor → Text
default_url anthropic = codes "https://api.anthropic.com/v1/messages"
default_url openai = codes "https://api.openai.com/v1/chat/completions"

-- What the two constructors do alike. Their base URL is never configured from outside the tests.
new_vendor : Vendor → Config → Result ProviderError Settings
new_vendor vendor cfg =
    if is_nil cfg.api_key
    then err (key_required vendor)
    else ok (record {
      vendor = vendor;
      api_key = cfg.api_key;
      model_id = if is_nil cfg.model_id then default_model_id vendor else cfg.model_id;
      base_url = default_url vendor;
    })

new_anthropic : Config → Result ProviderError Settings
unfolding new_vendor
new_anthropic cfg = new_vendor anthropic cfg

new_openai : Config → Result ProviderError Settings
unfolding new_vendor
new_openai cfg = new_vendor openai cfg

unfoldable pub new_provider : Text → Config → Result ProviderError Settings
unfolding text_eq new_anthropic new_openai
new_provider provider cfg =
    if text_eq provider (codes "anthropic")
    then new_anthropic cfg
    else if text_eq provider (codes "openai")
    then new_openai cfg
    else if text_eq provider (codes "gemini")
    then err (coming_soon provider)
    else err (unknown_provider provider)

unfoldable pub default_model : Text → Text
unfolding text_eq
default_model provider =
    if text_eq provider (codes "anthropic")
    then default_model_id anthropic
    else if text_eq provider (codes "openai")
    then default_model_id openai
    else []

unfoldable pub redact_key : Bytes → Bytes
redact_key key = if leb (length key) 4 then codes "***" else take 4 key ++ codes "***"

unfoldable pub truncate : Bytes → ℕ → Bytes
truncate s n = if leb (length s) n then s else take n s ++ codes "..."

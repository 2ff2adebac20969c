-- ===== src/Llm/Laws.antt =====
-- Defaults of the providers, and what a redacted key shows.
use querylynx.Base.{
  ℕ, zero, suc, ◌≤◌, [], ◌∷◌, ◌≡◌, ◌≢◌, sym, ◌∙◌, arith, ok, leb, length, length-append, take,
  is_nil, if◌then◌else◌, false, Bool-cases, inl, inr,
}
use querylynx.Strings.{Text, codes, text_eq}
use querylynx.Utf8.{Bytes}
use querylynx.Llm.{
  Config, Vendor, anthropic, openai, Settings, default_model_id, new_vendor, new_anthropic,
  new_openai, new_provider, default_model, redact_key,
}

-- The settings that a provider's constructor gives: the session's key, which is not empty, and its
-- model or, without one, the default model of the provider's name.
abbrev pub IsConfigured : Text → Config → Settings → Type 0
IsConfigured provider cfg s =
    (s.api_key ≡ cfg.api_key)
    × (cfg.api_key ≢ [])
    × (s.model_id ≡ (if is_nil cfg.model_id then default_model provider else cfg.model_id))

new_vendor-settings :
    (vendor : Vendor) (cfg : Config) (s : Settings)
    → new_vendor vendor cfg ≡ ok s
    → (s.api_key ≡ cfg.api_key)
      × (cfg.api_key ≢ [])
      × (s.model_id ≡ (if is_nil cfg.model_id then default_model_id vendor else cfg.model_id))
unfolding new_vendor
new_vendor-settings vendor cfg s e = elim (Bool-cases (is_nil cfg.api_key)) [
  | inl missing ↦ absurd (ground arith)
  | inr given ↦ let same = rw given at e in (ground arith, λ h. ground (arith, h), ground arith)
]

-- If the registry's `New` returns a provider, its key is the session's, which is not empty, and its model
-- is the one that was asked for or, if none was, the one that `DefaultModel` shows for the name.
pub new_provider-IsConfigured :
    (provider : Text) (cfg : Config) {s : Settings}
    → new_provider provider cfg ≡ ok s
    → IsConfigured provider cfg s
unfolding new_provider default_model new_anthropic new_openai
new_provider-IsConfigured provider cfg {s} e =
    elim (Bool-cases (text_eq provider (codes "anthropic"))) [
      | inl h ↦ rw h (new_vendor-settings anthropic cfg s (rw h at e))
      | inr h ↦ elim (Bool-cases (text_eq provider (codes "openai"))) [
        | inl h' ↦ rw (h, h') (new_vendor-settings openai cfg s (rw (h, h') at e))
        | inr h' ↦ elim (Bool-cases (text_eq provider (codes "gemini"))) [
          | inl h'' ↦ absurd (ground arith)
          | inr h'' ↦ absurd (ground arith)
        ]
      ]
    ]

take-length_le : (n : ℕ) (s : Bytes) → length (take n s) ≤ n
take-length_le zero s = omega arith
take-length_le (suc n) [] = omega arith
take-length_le (suc n) (c ∷ s) = omega (arith, take-length_le n s)

-- A redacted key has at most seven bytes. Two keys of at most four bytes are redacted alike, and so are
-- two keys of more than four whose first four are the same.
pub redact_key-hides :
    (key other : Bytes)
    → (leb (length key) 4 ≡ false → take 4 key ≡ take 4 other)
    → leb (length key) 4 ≡ leb (length other) 4
    → (redact_key key ≡ redact_key other) × (length (redact_key key) ≤ 7)
unfolding redact_key
redact_key-hides key other first short = elim (Bool-cases (leb (length key) 4)) [
  | inl e ↦ (rw (e, sym short ∙ e), rw e (omega arith))
  | inr e ↦ (
    rw (e, sym short ∙ e, first e),
    rw e (omega (arith, take-length_le 4 key, length-append (take 4 key) (codes "***"))),
  )
]

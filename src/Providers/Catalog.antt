-- ===== src/Providers/Catalog.antt =====
-- The model catalog: packages/providers/legacydoc_providers/catalog.py.
-- Prices are kept exactly, in hundredths of a dollar per million tokens, so that a cost counts units
-- of 10 ^ -8 dollars. The date `verified_at`, which no code reads, is left out.
use legacy_doc.Common.{
  ℕ, ◌+◌, ◌*◌, Bool, true, false, not, Option, none, some, List, [], ◌∷◌, String, str_eq,
  if◌then◌else◌, keep,
}

pub data ProviderName : Type 0 where
  openai anthropic gemini : ProviderName

abbrev pub same_provider : ProviderName → ProviderName → Bool
same_provider openai openai = true
same_provider anthropic anthropic = true
same_provider gemini gemini = true
same_provider _ _ = false

pub record ModelSpec : Type 0 where
  pub provider : ProviderName
  pub model_id : String
  pub context_window : ℕ
  pub max_output_tokens : ℕ
  pub input_price : ℕ
  pub output_price : ℕ
  pub supports_structured_output : Bool
  pub verified : Bool

-- `cost_usd`, in units of 10 ^ -8 dollars.
unfoldable pub cost : ModelSpec → ℕ → ℕ → ℕ
cost spec input_tokens output_tokens =
    input_tokens * spec.input_price + output_tokens * spec.output_price

abbrev spec : ProviderName → String → ℕ → ℕ → ℕ → ℕ → Bool → ModelSpec
spec provider model_id context_window max_output_tokens input_price output_price verified = record {
  provider = provider;
  model_id = model_id;
  context_window = context_window;
  max_output_tokens = max_output_tokens;
  input_price = input_price;
  output_price = output_price;
  supports_structured_output = true;
  verified = verified;
}

-- `_MODELS`, whose keys are the identifiers.
unfoldable pub models : List ModelSpec
models =
    spec anthropic "claude-opus-5" 1_000_000 64_000 500 2500 true
    ∷ spec anthropic "claude-sonnet-5" 1_000_000 64_000 200 1000 true
    ∷ spec anthropic "claude-haiku-4-5" 200_000 32_000 100 500 true
    ∷ spec openai "gpt-4o-mini" 128_000 16_384 15 60 true
    ∷ spec openai "gpt-4o" 128_000 16_384 250 1000 true
    ∷ spec gemini "gemini-2.0-flash" 1_000_000 8_192 10 40 false
    ∷ spec gemini "gemini-1.5-pro" 2_000_000 8_192 125 500 false
    ∷ []

abbrev find_model : String → List ModelSpec → Option ModelSpec
find_model model_id [] = none
find_model model_id (m ∷ ms) = if str_eq m.model_id model_id then some m else find_model model_id ms

unfoldable pub get_model_spec : String → Option ModelSpec
unfolding models
get_model_spec model_id = find_model model_id models

unfoldable pub models_for_provider : ProviderName → List ModelSpec
unfolding models
models_for_provider provider = keep (λ m. same_provider m.provider provider) models

-- `estimate_cost_usd`: an unknown model costs nothing.
unfoldable pub estimate_cost : String → ℕ → ℕ → ℕ
unfolding cost
estimate_cost model_id input_tokens output_tokens = elim (get_model_spec model_id) [
  | none ↦ 0
  | some m ↦ cost m input_tokens output_tokens
]

unfoldable pub unverified_models : List ModelSpec
unfolding models
unverified_models = keep (λ m. not m.verified) models

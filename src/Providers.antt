-- ===== src/Providers.antt =====
-- Agent-to-provider routing: packages/providers/legacydoc_providers/router.py.
-- What a provider's client answers is outside the source: it is the argument `call`, which may answer
-- differently at each attempt. Temperatures are in tenths.
pub mod Catalog
pub mod Chain
pub mod Fallback
mod Tests
use legacy_doc.Common.{
  ℕ, ◌+◌, Bool, true, false, Option, none, some, List, [], ◌∷◌, ◌++◌, String, ltb, if◌then◌else◌,
  keep, any, append, clip,
}
use Catalog.{ProviderName, openai, anthropic, gemini, same_provider, estimate_cost}

pub data AgentRole : Type 0 where
  reader writer improver verifier summarizer : AgentRole

pub record ModelChoice : Type 0 where
  pub provider : ProviderName
  pub model : String
  pub temperature : ℕ
  pub max_output_tokens : ℕ

abbrev choice : ProviderName → String → ℕ → ℕ → ModelChoice
choice provider model temperature max_output_tokens = record {
  provider = provider;
  model = model;
  temperature = temperature;
  max_output_tokens = max_output_tokens;
}

-- `DEFAULT_ROUTES`: the attempt chain of each role.
unfoldable pub default_routes : AgentRole → List ModelChoice
default_routes reader =
    choice openai "gpt-4o-mini" 1 4096 ∷ choice gemini "gemini-2.0-flash" 1 4096 ∷ []
default_routes writer =
    choice openai "gpt-4o-mini" 2 8192
    ∷ choice gemini "gemini-2.0-flash" 2 8192
    ∷ choice anthropic "claude-haiku-4-5" 2 8192
    ∷ []
default_routes improver =
    choice anthropic "claude-sonnet-5" 0 8192 ∷ choice openai "gpt-4o" 0 8192 ∷ []
default_routes verifier =
    choice anthropic "claude-opus-5" 0 8192 ∷ choice openai "gpt-4o" 0 8192 ∷ []
default_routes summarizer =
    choice openai "gpt-4o-mini" 2 1024 ∷ choice gemini "gemini-2.0-flash" 2 1024 ∷ []

-- `choice.provider in self._providers`
abbrev pub is_configured : List ProviderName → ModelChoice → Bool
is_configured providers c = any (same_provider c.provider) providers

abbrev or_error : List ModelChoice → Option (List ModelChoice)
or_error [] = none
or_error (c ∷ cs) = some (c ∷ cs)

abbrev or_else : List ModelChoice → List ModelChoice → Option (List ModelChoice)
or_else [] generic = or_error generic
or_else (c ∷ cs) generic = some (c ∷ cs)

-- `resolve_chain`; `none` is the `ProviderError`. A role without a policy has the empty chain.
unfoldable pub resolve_chain :
    List ProviderName → (AgentRole → List ModelChoice) → AgentRole → Option (List ModelChoice)
resolve_chain providers routes role =
    or_else (keep (is_configured providers) (routes role))
      (keep (is_configured providers) (default_routes writer))

pub record Usage : Type 0 where
  pub input_tokens : ℕ
  pub output_tokens : ℕ
  pub cache_read_tokens : ℕ

pub record StructuredResult (V : Type 0) : Type 0 where
  pub value : V
  pub provider : ProviderName
  pub model : String
  pub usage : Usage
  pub latency_ms : ℕ
  pub fallback_used : Bool

-- How one call of a provider ends; the texts are the messages of the exceptions.
pub data Outcome (V : Type 0) : Type 0 where
  answered : StructuredResult V → Outcome V
  rate_limited : String → Outcome V
  provider_failed : String → Outcome V
  unexpected : String → Outcome V
  cancelled : Outcome V

pub record CallRecord : Type 0 where
  pub agent : AgentRole
  pub provider : ProviderName
  pub model : String
  pub input_tokens : ℕ
  pub output_tokens : ℕ
  pub cost : ℕ
  pub latency_ms : ℕ
  pub succeeded : Bool
  pub cache_read_tokens : ℕ

-- `_record`
abbrev pub success_record : {V : Type 0} → AgentRole → StructuredResult V → CallRecord
success_record role r = record {
  agent = role;
  provider = r.provider;
  model = r.model;
  input_tokens = r.usage.input_tokens;
  output_tokens = r.usage.output_tokens;
  cost = estimate_cost r.model r.usage.input_tokens r.usage.output_tokens;
  latency_ms = r.latency_ms;
  succeeded = true;
  cache_read_tokens = r.usage.cache_read_tokens;
}

-- `_record_failure`
abbrev pub failure_record : AgentRole → ModelChoice → CallRecord
failure_record role c = record {
  agent = role;
  provider = c.provider;
  model = c.model;
  input_tokens = 0;
  output_tokens = 0;
  cost = 0;
  latency_ms = 0;
  succeeded = false;
  cache_read_tokens = 0;
}

-- How `complete` ends: with a result; by raising `ProviderError`, in `resolve_chain` or, with its
-- message and the last error in its details, after the loop; or by letting a cancellation through.
pub data Completion (V : Type 0) : Type 0 where
  finished : StructuredResult V → Completion V
  no_provider : Completion V
  exhausted : (message last_error : String) → Completion V
  interrupted : Completion V

-- `str(role)`
abbrev pub role_name : AgentRole → String
role_name reader = "reader"
role_name writer = "writer"
role_name improver = "improver"
role_name verifier = "verifier"
role_name summarizer = "summarizer"

-- `f"Todos os provedores falharam para o papel {role}."`
abbrev pub all_failed : AgentRole → String
all_failed role = append "Todos os provedores falharam para o papel " (append (role_name role) ".")

-- `str(last_error)[:500]`
abbrev pub error_text : Option String → String
error_text none = "None"
error_text (some e) = clip 500 e

-- `self._usage_sink is None` means that nothing is recorded.
abbrev pub sink : Bool → CallRecord → List CallRecord → List CallRecord
sink has_sink r rs = if has_sink then r ∷ rs else rs

module _ {V : Type 0} (call : ℕ → ModelChoice → Outcome V) (has_sink : Bool)
    (role : AgentRole) where
  -- A failed attempt: it is recorded, and the loop goes on.
  abbrev after_failure :
      ModelChoice → Completion V × List CallRecord → Completion V × List CallRecord
  after_failure c (result, records) = (result, sink has_sink (failure_record role c) records)

  -- The loop of `complete` from a given attempt, with the last error so far.
  unfoldable pub try_chain : ℕ → Option String → List ModelChoice → Completion V × List CallRecord
  try_chain attempt last_error [] = (exhausted (all_failed role) (error_text last_error), [])
  try_chain attempt last_error (c ∷ cs) = elim (call attempt c) [
    | answered r ↦ (
      finished (record r { fallback_used = ltb 0 attempt }),
      sink has_sink (success_record role r) [],
    )
    | rate_limited e ↦ after_failure c (try_chain (attempt + 1) (some e) cs)
    | provider_failed e ↦ after_failure c (try_chain (attempt + 1) (some e) cs)
    | cancelled ↦ (interrupted, [])
    | unexpected e ↦ after_failure c (try_chain (attempt + 1) (some e) cs)
  ]

  -- `complete`, with the records that it hands to the sink.
  unfoldable pub complete :
      List ProviderName → (AgentRole → List ModelChoice) → Completion V × List CallRecord
  unfolding try_chain
  complete providers routes = elim (resolve_chain providers routes role) [
    | none ↦ (no_provider, [])
    | some chain ↦ try_chain 0 none chain
  ]

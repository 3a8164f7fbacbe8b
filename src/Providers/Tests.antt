-- ===== src/Providers/Tests.antt =====
-- The routing theorems at concrete inputs.
use legacy_doc.Common.{ℕ, ◌≡◌, refl, true, some, [], ◌∷◌, ◌==◌, if◌then◌else◌}
use legacy_doc.Providers.Catalog.{openai, gemini, estimate_cost, get_model_spec, models}
use legacy_doc.Providers.{
  reader, ModelChoice, StructuredResult, Outcome, answered, rate_limited, provider_failed,
  success_record, failure_record, finished, default_routes, resolve_chain, complete,
}
use legacy_doc.Providers.Fallback.{complete_first_answer}

-- A million tokens each way of gpt-4o-mini: 0.75 dollars.
estimate_cost-mini : estimate_cost "gpt-4o-mini" 1_000_000 1_000_000 ≡ 75_000_000
unfolding estimate_cost get_model_spec models
estimate_cost-mini = refl

estimate_cost-unknown : estimate_cost "gpt-9" 5 5 ≡ 0
unfolding estimate_cost get_model_spec models
estimate_cost-unknown = refl

abbrev answer : StructuredResult ℕ
answer = record {
  value = 42;
  provider = gemini;
  model = "gemini-2.0-flash";
  usage = record { input_tokens = 10; output_tokens = 5; cache_read_tokens = 0 };
  latency_ms = 900;
  fallback_used = true;
}

-- The first attempt is rate limited, the second answers, any other fails.
abbrev flaky : ℕ → ModelChoice → Outcome ℕ
flaky attempt c =
    if attempt == 0
    then rate_limited "429"
    else if attempt == 1
    then answered answer
    else provider_failed "down"

abbrev down : ℕ → ModelChoice → Outcome ℕ
down attempt c = provider_failed "down"

abbrev first : ModelChoice
first = record {
  provider = openai;
  model = "gpt-4o-mini";
  temperature = 1;
  max_output_tokens = 4096;
}

abbrev second : ModelChoice
second = record {
  provider = gemini;
  model = "gemini-2.0-flash";
  temperature = 1;
  max_output_tokens = 4096;
}

resolve_chain-reader :
    resolve_chain (gemini ∷ openai ∷ []) default_routes reader ≡ some (first ∷ second ∷ [])
unfolding resolve_chain default_routes
resolve_chain-reader = refl

complete_first_answer_example :
    complete flaky true reader (gemini ∷ openai ∷ []) default_routes
    ≡ (finished answer, failure_record reader first ∷ success_record reader answer ∷ [])
complete_first_answer_example =
    complete_first_answer flaky reader (gemini ∷ openai ∷ []) default_routes (first ∷ []) [] second
      ("429" ∷ []) resolve_chain-reader (refl, tt) refl

-- ===== src/Providers/Fallback.antt =====
-- How `complete` falls through the chain, and what it records.
use legacy_doc.Common.{
  ℕ, ◌+◌, ◌≡◌, ap, ◌∙◌, true, Option, none, some, List, [], ◌∷◌, ◌++◌, map, String, ltb, length,
  arith,
}
use legacy_doc.Providers.Catalog.{ProviderName}
use legacy_doc.Providers.{
  AgentRole, ModelChoice, StructuredResult, Outcome, answered, rate_limited, provider_failed,
  unexpected, cancelled, CallRecord, success_record, failure_record, Completion, finished,
  resolve_chain, try_chain, complete,
}

-- The message of an attempt that failed; an answer and a cancellation are no failures.
abbrev pub failure_of : {V : Type 0} → Outcome V → Option String
failure_of (answered r) = none
failure_of (rate_limited e) = some e
failure_of (provider_failed e) = some e
failure_of (unexpected e) = some e
failure_of cancelled = none

module _ {V : Type 0} (call : ℕ → ModelChoice → Outcome V) where
  -- Every attempt of the list fails, the first being the one of the given number; `messages` lists
  -- what they say.
  abbrev pub AllFail : ℕ → List ModelChoice → List String → Type 0
  AllFail attempt [] [] = Unit
  AllFail attempt [] (m ∷ ms) = ⊥
  AllFail attempt (c ∷ cs) [] = ⊥
  AllFail attempt (c ∷ cs) (m ∷ ms) =
      (failure_of (call attempt c) ≡ some m) × AllFail (attempt + 1) cs ms

abbrev pub last_or : Option String → List String → Option String
last_or o [] = o
last_or o (m ∷ ms) = last_or (some m) ms

module _ {V : Type 0} (call : ℕ → ModelChoice → Outcome V) (role : AgentRole) where
  abbrev with_records :
      List CallRecord → Completion V × List CallRecord → Completion V × List CallRecord
  with_records rs (result, records) = (result, rs ++ records)

  step :
      (attempt : ℕ) (last : Option String) (c : ModelChoice) (cs : List ModelChoice) {m : String}
      → failure_of (call attempt c) ≡ some m
      → try_chain call true role attempt last (c ∷ cs)
        ≡ with_records
            (failure_record role c ∷ [])
            (try_chain call true role (attempt + 1) (some m) cs)
  unfolding try_chain
  step attempt last c cs h = ground arith

  falls :
      (attempt : ℕ) (last : Option String) (pre rest : List ModelChoice) (messages : List String)
      → AllFail call attempt pre messages
      → try_chain call true role attempt last (pre ++ rest)
        ≡ with_records
            (map (failure_record role) pre)
            (try_chain call true role (attempt + length pre) (last_or last messages) rest)
  falls attempt last [] rest [] h =
      ap (λ (n : ℕ). try_chain call true role n last rest) (omega arith)
  falls attempt last [] rest (m ∷ ms) h = absurd h
  falls attempt last (c ∷ cs) rest [] h = absurd h
  falls attempt last (c ∷ cs) rest (m ∷ ms) h =
      step attempt last c (cs ++ rest) h.0
      ∙ ap (with_records (failure_record role c ∷ [])) (
          falls (attempt + 1) (some m) cs rest ms h.1
          ∙ ap
              (λ (n : ℕ).
                with_records (map (failure_record role) cs)
                  (try_chain call true role n (last_or (some m) ms) rest))
              (omega arith))

  answers :
      (attempt : ℕ) (last : Option String) (c : ModelChoice) (post : List ModelChoice)
      {r : StructuredResult V}
      → call attempt c ≡ answered r
      → try_chain call true role attempt last (c ∷ post)
        ≡ (finished (record r { fallback_used = ltb 0 attempt }), success_record role r ∷ [])
  unfolding try_chain
  answers attempt last c post h = ground arith

  -- When the first models of the chain fail and the next one answers, the call returns that answer,
  -- marked as a fallback if it was not the first model; it records one failure for each model that
  -- failed, in order, and then the answer, and it tries no further model.
  pub complete_first_answer :
      (providers : List ProviderName) (routes : AgentRole → List ModelChoice)
      (pre post : List ModelChoice) (c : ModelChoice) (messages : List String)
      {r : StructuredResult V}
      → resolve_chain providers routes role ≡ some (pre ++ c ∷ post)
      → AllFail call 0 pre messages
      → call (length pre) c ≡ answered r
      → complete call true role providers routes ≡ (
        finished (record r { fallback_used = ltb 0 (length pre) }),
        map (failure_record role) pre ++ success_record role r ∷ [],
      )
  unfolding complete
  complete_first_answer providers routes pre post c messages h fail ok =
      let here : 0 + length pre ≡ length pre = omega arith in
      rw (h, complete)
        (falls 0 none pre (c ∷ post) messages fail
          ∙ ap (with_records (map (failure_record role) pre)) (
              ap (λ (n : ℕ). try_chain call true role n (last_or none messages) (c ∷ post)) here
              ∙ answers (length pre) (last_or none messages) c post ok))

-- ===== src/Providers/Chain.antt =====
-- Which models a role may try.
use legacy_doc.Common.{
  Bool, ◌≡◌, ◌≢◌, refl, inl, inr, true, some, List, [], ◌∷◌, arith, keep, All, Bool-cases,
}
use legacy_doc.Providers.Catalog.{ProviderName, openai, anthropic, gemini}
use legacy_doc.Providers.{
  AgentRole, writer, ModelChoice, is_configured, default_routes, resolve_chain, or_else,
}

All-keep {ℓ} : {A : Type ℓ} (p : A → Bool) (xs : List A) → All (λ x. p x ≡ true) (keep p xs)
All-keep p [] = tt
All-keep p (x ∷ xs) = elim (Bool-cases (p x)) [
  | inl e ↦ rw e (e, All-keep p xs)
  | inr e ↦ rw e (All-keep p xs)
]

-- The general route names every provider, so one configured provider is enough.
generic-nonempty :
    (p : ProviderName) (ps : List ProviderName)
    → keep (is_configured (p ∷ ps)) (default_routes writer) ≢ []
unfolding default_routes
generic-nonempty openai ps = ground arith
generic-nonempty anthropic ps = ground arith
generic-nonempty gemini ps = ground arith

-- With at least one provider configured, every role has something to try, whatever its policy names:
-- the chain is never empty, and it names configured providers only.
pub resolve_chain_total :
    (p : ProviderName) (ps : List ProviderName) (routes : AgentRole → List ModelChoice)
    (role : AgentRole)
    → (chain : List ModelChoice) × (resolve_chain (p ∷ ps) routes role ≡ some chain)
      × (chain ≢ [])
      × All (λ c. is_configured (p ∷ ps) c ≡ true) chain
unfolding resolve_chain
resolve_chain_total p ps routes role =
    go (keep (is_configured (p ∷ ps)) (routes role))
      (keep (is_configured (p ∷ ps)) (default_routes writer))
      (All-keep (is_configured (p ∷ ps)) (routes role))
      (All-keep (is_configured (p ∷ ps)) (default_routes writer)) (generic-nonempty p ps)
  where
    go :
        (own generic : List ModelChoice)
        → All (λ c. is_configured (p ∷ ps) c ≡ true) own
        → All (λ c. is_configured (p ∷ ps) c ≡ true) generic
        → generic ≢ []
        → (chain : List ModelChoice) × (or_else own generic ≡ some chain)
          × (chain ≢ [])
          × All (λ c. is_configured (p ∷ ps) c ≡ true) chain
    go [] [] ho hg ne = absurd (ne refl)
    go [] (g ∷ gs) ho hg ne = (g ∷ gs, refl, ne, hg)
    go (c ∷ cs) generic ho hg ne = (c ∷ cs, refl, (λ e. cc), ho)

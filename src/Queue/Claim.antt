-- ===== src/Queue/Claim.antt =====
-- Which job a claim takes, and what it writes.
use legacy_doc.Common.{
  ℕ, ◌≡◌, ◌≢◌, ◌↔◌, refl, ◌⊎◌, subst, sym, ap, ◌∙◌, inl, inr, Bool, true, false, ◌&&◌, none, some,
  List, [], ◌∷◌, arith, ◌==◌, if◌then◌else◌, count, All, All-imp, keep, Bool-cases, Option-cases,
  some_inj, some≢none,
}
use legacy_doc.Jobs.{Job, Table}
use legacy_doc.Queue.{
  map_where, get_job, eligible, precedes, first_of_order, candidate, claimed, claim_job,
  claim_selected, claim_where, claimed_selected,
}
use legacy_doc.Queue.Rows.{
  Distinct, In, In-keep, get_job-In, get_job-map_id, Distinct-map_where, KeepsId, map_where-none,
}

first_of_order-In : (c : Job) (js : List Job) → first_of_order js ≡ some c → In c js
unfolding first_of_order
first_of_order-In c [] h = cc
first_of_order-In c (j ∷ js) h = elim (Option-cases (first_of_order js)) [
  | inl e ↦ inl (ground (arith, e))
  | inr (k, e) ↦ elim (Bool-cases (precedes k j)) [
    | inl q ↦ inr (first_of_order-In c js (ground (arith, e, q)))
    | inr q ↦ inl (ground (arith, e, q))
  ]
]

not_precedes_trans :
    (a b c : Job) → precedes a b ≡ false → precedes b c ≡ false → precedes a c ≡ false
not_precedes_trans a b c p q = ground arith

-- No eligible row precedes the one that is chosen.
first_of_order-none : (js : List Job) → first_of_order js ≡ none → js ≡ []
unfolding first_of_order
first_of_order-none [] h = refl
first_of_order-none (j ∷ js) h = ground arith

first_of_order-least :
    (c : Job) (js : List Job) → first_of_order js ≡ some c → All (λ k. precedes k c ≡ false) js
unfolding first_of_order
first_of_order-least c [] h = tt
first_of_order-least c (j ∷ js) h = elim (Option-cases (first_of_order js)) [
  | inl e ↦ (
    ground (arith, e),
    subst (All (λ k. precedes k c ≡ false)) (sym (first_of_order-none js e)) tt,
  )
  | inr (k, e) ↦ elim (Bool-cases (precedes k j)) [
    | inl q ↦
        let same : k ≡ c = ground (arith, e, q) in
        (
          subst (λ x. precedes j x ≡ false) same (ground (arith, q)),
          subst (λ x. All (λ y. precedes y x ≡ false) js) same (first_of_order-least k js e),
        )
    | inr q ↦
        let same : j ≡ c = ground (arith, e, q) in
        subst (λ x. All (λ y. precedes y x ≡ false) (j ∷ js)) same
          (
            ground arith,
            All-imp (λ y. precedes y k ≡ false) (λ y. precedes y j ≡ false) js
                (λ y h'. not_precedes_trans y k j h' q) (first_of_order-least k js e),
          )
  ]
]

All-keep :
    (p q : Job → Bool) (t : Table)
    → All (λ k. q k ≡ false) (keep p t)
    → All (λ k. (p k && q k) ≡ false) t
All-keep p q [] h = tt
All-keep p q (j ∷ t) h = elim (Bool-cases (p j)) [
  | inl e ↦
      let h' = subst (λ b. All (λ k. q k ≡ false) (if b then j ∷ keep p t else keep p t)) e h in
      (rw e h'.0, All-keep p q t h'.1)
  | inr e ↦
      let h' = subst (λ b. All (λ k. q k ≡ false) (if b then j ∷ keep p t else keep p t)) e h in
      (rw e, All-keep p q t h')
]

-- The candidate is an eligible row of the table.
pub candidate-In :
    (skip : ℕ → Bool) (now : ℕ) (t : Table) (c : Job)
    → candidate skip now t ≡ some c
    → In c t × (eligible skip now c ≡ true)
unfolding candidate
candidate-In skip now t c h =
    In-keep (eligible skip now) c t (first_of_order-In c (keep (eligible skip now) t) h)

claimed-KeepsId : (worker now lease : ℕ) → KeepsId (claimed worker now lease)
claimed-KeepsId worker now lease j = refl

pub claim_job_of_candidate :
    (skip : ℕ → Bool) (worker lease now : ℕ) (t : Table) (c : Job)
    → Distinct t
    → candidate skip now t ≡ some c
    → claim_job skip worker lease now t ≡ (
      some (claimed worker now lease c),
      map_where (λ j. j.id == c.id) (claimed worker now lease) t,
    )
unfolding claim_job
claim_job_of_candidate skip worker lease now t c d e = ground (
  arith,
  e,
  get_job-In c t d (candidate-In skip now t c e).0,
  get_job-map_id c.id c.id (claimed worker now lease) t (claimed-KeepsId worker now lease),
)

pub claim_job_of_none :
    (skip : ℕ → Bool) (worker lease now : ℕ) (t : Table)
    → candidate skip now t ≡ none
    → claim_job skip worker lease now t ≡ (none, t)
unfolding claim_job
claim_job_of_none skip worker lease now t e = ground (arith, e)

candidate-none :
    (skip : ℕ → Bool) (now : ℕ) (t : Table)
    → candidate skip now t ≡ none
    → All (λ k. eligible skip now k ≡ false) t
unfolding candidate
candidate-none skip now t e = empty t (first_of_order-none (keep (eligible skip now) t) e)
  where
    empty : (u : Table) → keep (eligible skip now) u ≡ [] → All (λ k. eligible skip now k ≡ false) u
    empty u h =
        All-imp (λ k. (eligible skip now k && true) ≡ false) (λ k. eligible skip now k ≡ false) u
          (λ k p. ground (arith, p))
          (All-keep (eligible skip now) (λ _. true) u (subst (All (λ _. true ≡ false)) (sym h) tt))

candidate-of_none :
    (skip : ℕ → Bool) (now : ℕ) (t : Table)
    → All (λ k. eligible skip now k ≡ false) t
    → candidate skip now t ≡ none
unfolding candidate first_of_order
candidate-of_none skip now [] h = refl
candidate-of_none skip now (j ∷ t) h = rw h.0 (candidate-of_none skip now t h.1)

-- A claim that returns a row had a candidate.
pub claim_job-some :
    (skip : ℕ → Bool) (worker lease now : ℕ) (t : Table) {r : Job} {t' : Table}
    → Distinct t
    → claim_job skip worker lease now t ≡ (some r, t')
    → (c : Job) × (candidate skip now t ≡ some c)
      × (r ≡ claimed worker now lease c)
      × (t' ≡ map_where (λ j. j.id == c.id) (claimed worker now lease) t)
claim_job-some skip worker lease now t d h = elim (Option-cases (candidate skip now t)) [
  | inl e ↦ absurd (some≢none (ap (λ p. p.0) (sym h ∙ claim_job_of_none skip worker lease now t e)))
  | inr (c, e) ↦
      let q = sym h ∙ claim_job_of_candidate skip worker lease now t c d e in
      (c, e, some_inj (ap (λ p. p.0) q), ap (λ p. p.1) q)
]

-- A successful claim takes a job that was queued, due and not held by another transaction, and that
-- no such job precedes in the order of priority and schedule; it returns that job marked as running
-- under the worker, with the lease and one more attempt; the table then holds the returned row under
-- its identifier, and every other identifier's row is unchanged.
pub claim_job_takes :
    (skip : ℕ → Bool) (worker lease now i : ℕ) (t : Table) {r : Job} {t' : Table}
    → Distinct t
    → claim_job skip worker lease now t ≡ (some r, t')
    → (c : Job) × (get_job c.id t ≡ some c)
      × (eligible skip now c ≡ true)
      × All (λ k. (eligible skip now k && precedes k c) ≡ false) t
      × (r ≡ claimed worker now lease c)
      × (get_job i t' ≡ (if i == c.id then some r else get_job i t))
unfolding candidate
claim_job_takes skip worker lease now i t {r = r} {t' = t'} d h =
    let (c, e, er, et) = claim_job-some skip worker lease now t d h in
    let (m, q) = candidate-In skip now t c e in
    (
      c,
      get_job-In c t d m,
      q,
      All-keep (eligible skip now) (λ k. precedes k c) t
          (first_of_order-least c (keep (eligible skip now) t) e),
      er,
      ground (
        arith,
        er,
        et,
        get_job-In c t d m,
        get_job-map_id i c.id (claimed worker now lease) t (claimed-KeepsId worker now lease),
      ),
    )

-- A claim finds nothing exactly when no row of the table is queued, due and free, and then it leaves
-- the table as it was.
pub claim_job-none_iff :
    (skip : ℕ → Bool) (worker lease now : ℕ) (t : Table)
    → Distinct t
    → (claim_job skip worker lease now t ≡ (none, t)) ↔ All (λ k. eligible skip now k ≡ false) t
claim_job-none_iff skip worker lease now t d = (
  λ h. elim (Option-cases (candidate skip now t)) [
    | inl e ↦ candidate-none skip now t e
    | inr (c, e) ↦
        absurd (
          some≢none
            (ap (λ p. p.0) (sym (claim_job_of_candidate skip worker lease now t c d e) ∙ h)))
  ],
  λ h. claim_job_of_none skip worker lease now t (candidate-of_none skip now t h),
)

claim_job-written :
    (skip : ℕ → Bool) (w lease now : ℕ) (t : Table) {a c : Job} {t' : Table}
    → Distinct t
    → candidate skip now t ≡ some c
    → a ≡ claimed w now lease c
    → t' ≡ map_where (λ j. j.id == c.id) (claimed w now lease) t
    → get_job a.id t' ≡ some a
claim_job-written skip w lease now t {a = a} {c = c} {t' = t'} d ce er et =
    let found = get_job-In c t d (candidate-In skip now t c ce).0 in
    let step = get_job-map_id c.id c.id (claimed w now lease) t (claimed-KeepsId w now lease) in
    subst (λ x. get_job x.id t' ≡ some x) (sym er)
      (subst (λ u. get_job c.id u ≡ some (claimed w now lease c)) (sym et)
        (ground (arith, found, step)))

claimed-ineligible :
    (skip : ℕ → Bool) (w lease now now' : ℕ) (c : Job)
    → ¬ (eligible skip now' (claimed w now lease c) ≡ true)
claimed-ineligible skip w lease now now' c h = cc

-- Two claims, one after the other, never return the same job, whichever the workers and instants.
pub claim_job_exclusive :
    (skip skip' : ℕ → Bool) (w w' lease lease' now now' : ℕ) (t : Table) {a b : Job}
    {t' t'' : Table}
    → Distinct t
    → claim_job skip w lease now t ≡ (some a, t')
    → claim_job skip' w' lease' now' t' ≡ (some b, t'')
    → a.id ≢ b.id
claim_job_exclusive skip skip' w w' lease lease' now now' t {a = a} {t' = t'} d h h' e =
    let (c, ce, er, et) = claim_job-some skip w lease now t d h in
    let d' : Distinct t' = subst Distinct (sym et) (
      Distinct-map_where (λ j. j.id == c.id) (claimed w now lease) t (claimed-KeepsId w now lease)
        d) in
    let (c', found, q, _, eb, _) = claim_job_takes skip' w' lease' now' a.id t' d' h' in
    let same : c'.id ≡ a.id = sym (ap (λ r. r.id) eb) ∙ sym e in
    let written : get_job a.id t' ≡ some a = claim_job-written skip w lease now t d ce er et in
    claimed-ineligible skip' w lease now now' c (
      subst (λ x. eligible skip' now' x ≡ true)
        (some_inj (sym (subst (λ k. get_job k t' ≡ some c') same found) ∙ written) ∙ er) q)

-- A guarded claim is an update of the rows that are still queued, whether or not there is one.
pub claim_selected-table :
    (w lease now : ℕ) (c : Job) (t : Table)
    → (claim_selected w lease now c t).1
      ≡ map_where (claim_where c) (claimed_selected w now lease c) t
unfolding claim_selected
claim_selected-table w lease now c t = elim (Bool-cases (count (claim_where c) t == 0)) [
  | inl e ↦
      rw e (
        sym (map_where-none (claim_where c) (claimed_selected w now lease c) t (ground (arith, e))))
  | inr e ↦ rw e
]

-- A claim leaves the table as it is, or rewrites the candidate's row.
pub claim_job-table :
    (skip : ℕ → Bool) (worker lease now : ℕ) (t : Table)
    → Distinct t
    → ((claim_job skip worker lease now t ≡ (none, t))
        ⊎ ((c : Job) × (candidate skip now t ≡ some c)
            × (claim_job skip worker lease now t ≡ (
              some (claimed worker now lease c),
              map_where (λ j. j.id == c.id) (claimed worker now lease) t,
            ))))
claim_job-table skip worker lease now t d = elim (Option-cases (candidate skip now t)) [
  | inl e ↦ inl (claim_job_of_none skip worker lease now t e)
  | inr (c, e) ↦ inr (c, e, claim_job_of_candidate skip worker lease now t c d e)
]

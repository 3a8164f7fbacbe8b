-- ===== src/Queue/Invariant.antt =====
-- What holds of every row of the queue, and that each operation of the queue keeps it.
use legacy_doc.Common.{
  ℕ, ◌≤◌, ◌<◌, ◌≡◌, refl, Bool, true, false, Option, none, some, [], ◌∷◌, ◌++◌, String, arith, ◌==◌,
  All, is_some, Bool-cases, Option-cases, some_inj, some≢none, ◌⊎◌, sym, ◌∙◌, ap, subst, count,
  holds, inl, inr,
}
use legacy_doc.Jobs.{
  JobStatus, queued, running, succeeded, failed, cancelled, Job, JobType, Params, Table,
}
use legacy_doc.Queue.{
  map_where, get_job, new_job, enqueue, claim_job, claim_selected, claimed, candidate, heartbeat,
  heartbeat_write, complete_job, completed, failure, fail_job, reap_expired_leases, requeued,
  abandoned, cancel_job, cancelled_at, held_by, heartbeat_where, requeue_where, abandon_where,
  cancel_where, claim_where, claimed_selected, should_retry, session_row,
}
use legacy_doc.Queue.Rows.{
  Distinct, All-map_where, All-append, Distinct-map_where, KeepsId, All-map_id, get_job-In,
  Distinct-append,
}
use legacy_doc.Queue.Claim.{claim_job_of_none, claim_job_of_candidate, candidate-In}

-- Who holds a job, by its status: a queued job is free and has an attempt left, a running one has
-- an owner, a lease and an attempt behind it, and a finished one has no lease and a finishing time.
abbrev pub Ownership : JobStatus → Job → Type 0
Ownership queued j =
    (j.locked_by ≡ none) × (j.lease_expires_at ≡ none) × (j.attempts < j.max_attempts)
Ownership running j =
    (is_some j.locked_by ≡ true) × (is_some j.lease_expires_at ≡ true) × (1 ≤ j.attempts)
Ownership succeeded j =
    (is_some j.locked_by ≡ true)
    × (j.lease_expires_at ≡ none)
    × (1 ≤ j.attempts)
    × (is_some j.finished_at ≡ true)
Ownership failed j =
    (j.locked_by ≡ none) × (j.lease_expires_at ≡ none) × (is_some j.finished_at ≡ true)
Ownership cancelled j =
    (j.locked_by ≡ none) × (j.lease_expires_at ≡ none) × (is_some j.finished_at ≡ true)

abbrev pub IsRow : Job → Type 0
IsRow j = (j.attempts ≤ j.max_attempts) × (j.progress_percent ≤ 100) × Ownership j.status j

abbrev pub IsValid : Table → Type 0
IsValid t = All IsRow t × Distinct t

claimed-IsRow :
    (worker now lease : ℕ) (j : Job)
    → j.status ≡ queued
    → IsRow j
    → IsRow (claimed worker now lease j)
claimed-IsRow worker now lease j q h = ground arith

heartbeat_write-IsRow :
    (job_id worker now lease : ℕ) (percent : Option ℕ) (message : Option String) (j : Job)
    → j.status ≡ running
    → IsRow j
    → IsRow (heartbeat_write now lease percent message j)
heartbeat_write-IsRow job_id worker now lease percent message j q h = ground arith

completed-IsRow :
    (job_id worker now : ℕ) (j : Job)
    → held_by job_id worker j ≡ true
    → IsRow j
    → IsRow (completed now j)
completed-IsRow job_id worker now j q h = ground arith

pub failure-KeepsId :
    (retryable : Bool) (now : ℕ) (code message : String) (seen : Job)
    → KeepsId (failure retryable now code message seen)
failure-KeepsId retryable now code message seen j = ground arith

-- Two rows of a job at the same claim of it.
abbrev pub SameClaim : (seen j : Job) → Type 0
SameClaim seen j =
    (seen.locked_by ≡ j.locked_by)
    × (seen.attempts ≡ j.attempts)
    × (seen.max_attempts ≡ j.max_attempts)

-- The row that a session holds, if it holds one, is of the claim that the table's row is at.
abbrev pub IsFresh : Option Job → ℕ → Table → Type 0
IsFresh none job_id t = Unit
IsFresh (some seen) job_id t = (j : Job) × (get_job job_id t ≡ some j) × SameClaim seen j

failure-IsRow :
    (retryable : Bool) (worker now : ℕ) (code message : String) (seen j : Job)
    → SameClaim seen j
    → j.locked_by ≡ some worker
    → IsRow j
    → IsRow (failure retryable now code message seen j)
failure-IsRow retryable worker now code message seen j (_, a, m) q h = ground arith

-- A well-formed enqueue, with at least one attempt allowed, keeps the table valid.
pub enqueue-IsValid :
    (id now user_id : ℕ) (job_type : JobType) (params : Params) (priority : ℕ)
    (project_id : Option ℕ) (max_attempts : ℕ) (webhook_url : Option String) (t : Table) {j : Job}
    {t' : Table}
    → 0 < max_attempts
    → IsValid t
    → enqueue id now user_id job_type params priority project_id max_attempts webhook_url t
      ≡ some (j, t')
    → IsValid t'
unfolding enqueue
enqueue-IsValid id now user_id job_type params priority project_id max_attempts webhook_url t
      {t' = t'} m v h =
    elim (Option-cases (get_job id t)) [
      | inl e ↦
          let job =
            new_job id now user_id job_type params priority project_id max_attempts webhook_url in
          let q : t ++ job ∷ [] ≡ t' = ap (λ p. p.1) (some_inj (rw (e, enqueue) at h)) in
          subst IsValid q
            (All-append IsRow t job v.0 (ground arith), Distinct-append id t job v.1 refl e)
      | inr (k, e) ↦ absurd (some≢none (sym h ∙ rw (e, enqueue)))
    ]

pub claim_job-IsValid :
    (skip : ℕ → Bool) (worker lease now : ℕ) (t : Table)
    → IsValid t
    → IsValid (claim_job skip worker lease now t).1
claim_job-IsValid skip worker lease now t v = elim (Option-cases (candidate skip now t)) [
  | inl e ↦ rw (claim_job_of_none skip worker lease now t e) v
  | inr (c, e) ↦
      let (m, q) = candidate-In skip now t c e in
      rw (claim_job_of_candidate skip worker lease now t c v.1 e) (
        All-map_id IsRow c.id (claimed worker now lease) t v.1 v.0 (λ j found h.
            claimed-IsRow worker now lease j
              (subst (λ x. x.status ≡ queued) (some_inj (sym (get_job-In c t v.1 m) ∙ found))
                (ground (arith, q)))
              h),
        Distinct-map_where (λ j. j.id == c.id) (claimed worker now lease) t (λ j. refl) v.1,
      )
]

pub claim_selected-IsValid :
    (worker lease now : ℕ) (c : Job) (t : Table)
    → IsValid t
    → IsValid (claim_selected worker lease now c t).1
unfolding claim_selected
claim_selected-IsValid worker lease now c t v = elim (Bool-cases (count (claim_where c) t == 0)) [
  | inl e ↦ rw e v
  | inr e ↦ rw e (
    All-map_where IsRow (claim_where c) (claimed_selected worker now lease c) t
        (λ j p h. ground (arith, p, h)) v.0,
    Distinct-map_where (claim_where c) (claimed_selected worker now lease c) t (λ j. refl) v.1,
  )
]

pub heartbeat-IsValid :
    (job_id worker lease : ℕ) (percent : Option ℕ) (message : Option String) (now : ℕ) (t : Table)
    → IsValid t
    → IsValid (heartbeat job_id worker lease percent message now t).1
unfolding heartbeat
heartbeat-IsValid job_id worker lease percent message now t v = (
  All-map_where IsRow (heartbeat_where job_id worker) (heartbeat_write now lease percent message) t
      (λ j p h.
        heartbeat_write-IsRow job_id worker now lease percent message j (ground (arith, p)) h)
      v.0,
  Distinct-map_where (heartbeat_where job_id worker) (heartbeat_write now lease percent message) t
      (λ j. refl) v.1,
)

pub complete_job-IsValid :
    (job_id worker now : ℕ) (t : Table) → IsValid t → IsValid (complete_job job_id worker now t)
unfolding complete_job
complete_job-IsValid job_id worker now t v = (
  All-map_where IsRow (held_by job_id worker) (completed now) t (completed-IsRow job_id worker now)
      v.0,
  Distinct-map_where (held_by job_id worker) (completed now) t (λ j. refl) v.1,
)

session_row-IsFresh :
    (cached : Option Job) (job_id : ℕ) (t : Table) (seen : Job)
    → IsFresh cached job_id t
    → session_row cached job_id t ≡ some seen
    → (j : Job) × (get_job job_id t ≡ some j) × SameClaim seen j
session_row-IsFresh none job_id t seen fresh h = (seen, h, (refl, refl, refl))
session_row-IsFresh (some c) job_id t seen fresh h =
    subst (λ x. (j : Job) × (get_job job_id t ≡ some j) × SameClaim x j) (some_inj h) fresh

-- A failure that is recorded from a fresh row is the worker's own: otherwise the table stays as it
-- was.
pub fail_job-cases :
    (cached : Option Job) (job_id worker : ℕ) (code message : String) (retryable : Bool) (now : ℕ)
    (t : Table)
    → IsFresh cached job_id t
    → (fail_job cached job_id worker code message retryable now t ≡ (false, t))
      ⊎ ((seen : Job) × (j : Job) × (get_job job_id t ≡ some j)
          × SameClaim seen j
          × (j.locked_by ≡ some worker)
          × (fail_job cached job_id worker code message retryable now t ≡ (
            should_retry retryable seen,
            map_where (λ k. k.id == job_id) (failure retryable now code message seen) t,
          )))
unfolding fail_job
fail_job-cases cached job_id worker code message retryable now t fresh =
    elim (Option-cases (session_row cached job_id t)) [
      | inl e ↦ inl (rw (e, fail_job))
      | inr (seen, e) ↦
          let (j, found, same) = session_row-IsFresh cached job_id t seen fresh e in
          elim (Bool-cases (holds seen.locked_by worker)) [
            | inl q ↦
                inr (seen, j, found, same, sym same.0 ∙ ground (arith, q), rw (e, fail_job) (rw q))
            | inr q ↦ inl (rw (e, fail_job) (rw q))
          ]
    ]

pub fail_job-IsValid :
    (cached : Option Job) (job_id worker : ℕ) (code message : String) (retryable : Bool) (now : ℕ)
    (t : Table)
    → IsFresh cached job_id t
    → IsValid t
    → IsValid (fail_job cached job_id worker code message retryable now t).1
fail_job-IsValid cached job_id worker code message retryable now t fresh v =
    elim (fail_job-cases cached job_id worker code message retryable now t fresh) [
      | inl e ↦ rw e v
      | inr (seen, j, found, same, held, e) ↦ rw e (
        All-map_id IsRow job_id (failure retryable now code message seen) t v.1 v.0 (λ k found' h.
            failure-IsRow retryable worker now code message seen k
              (subst (SameClaim seen) (some_inj (sym found ∙ found')) same)
              (subst (λ x. x.locked_by ≡ some worker) (some_inj (sym found ∙ found')) held) h),
        Distinct-map_where (λ k. k.id == job_id) (failure retryable now code message seen) t
            (failure-KeepsId retryable now code message seen) v.1,
      )
    ]

pub reap_expired_leases-IsValid :
    (now : ℕ) (t : Table) → IsValid t → IsValid (reap_expired_leases now t).1
unfolding reap_expired_leases
reap_expired_leases-IsValid now t v =
    let t' = map_where (requeue_where now) (requeued now) t in
    (
      All-map_where IsRow (abandon_where now) (abandoned now) t' (λ j p h. ground (arith, p, h))
          (All-map_where IsRow (requeue_where now) (requeued now) t (λ j p h. ground (arith, p, h))
            v.0),
      Distinct-map_where (abandon_where now) (abandoned now) t' (λ j. refl)
          (Distinct-map_where (requeue_where now) (requeued now) t (λ j. refl) v.1),
    )

pub cancel_job-IsValid :
    (job_id now : ℕ) (t : Table) → IsValid t → IsValid (cancel_job job_id now t).1
unfolding cancel_job
cancel_job-IsValid job_id now t v = (
  All-map_where IsRow (cancel_where job_id) (cancelled_at now) t (λ j p h. ground (arith, p, h))
      v.0,
  Distinct-map_where (cancel_where job_id) (cancelled_at now) t (λ j. refl) v.1,
)

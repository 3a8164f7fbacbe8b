-- ===== src/Queue/Machine.antt =====
-- The queue as a machine of statuses.
use legacy_doc.Common.{
  ℕ, ◌≡◌, refl, sym, ◌∙◌, ap, subst, inl, inr, ◌⊎◌, Bool, true, some, arith, ◌==◌, Bool-cases,
  some_inj, holds, String,
}
use legacy_doc.Jobs.{
  JobStatus, queued, running, succeeded, failed, cancelled, same_status, Job, Table,
}
use legacy_doc.Queue.{
  map_where, get_job, claimed, claimed_selected, claim_where, heartbeat_where, heartbeat_write,
  held_by, completed, failure, should_retry, requeue_where, requeued, abandon_where, abandoned,
  cancel_where, cancelled_at, heartbeat as renew_lease, complete_job, reap_expired_leases,
  cancel_job,
}
use legacy_doc.Queue.Rows.{KeepsId, get_job-map_where, get_job-id, get_job-In, All-get_job}
use legacy_doc.Queue.Claim.{candidate-In, claim_job-table, claim_selected-table}
use legacy_doc.Queue.Invariant.{IsValid, IsRow, fail_job-cases, failure-KeepsId}
use legacy_doc.Queue.History.{
  Op, enqueue, claim, claim_selected, heartbeat, complete, fail, reap, cancel, run_op, IsFreshOp,
  default_max_attempts,
}
use legacy_doc.Queue.Settled.{get_job-enqueue}

-- How the status of a job may move. A job that succeeded stays its worker's, which may still report a
-- failure of it (`reopens`, `revokes`).
pub data Moves : JobStatus → JobStatus → Type 0 where
  stays : {s : JobStatus} → Moves s s
  starts : Moves queued running
  succeeds : Moves running succeeded
  returns : Moves running queued
  fails : Moves running failed
  withdraws : Moves queued cancelled
  reopens : Moves succeeded queued
  revokes : Moves succeeded failed

-- The row of `i` in `t`, after a move from the status `s`.
abbrev Moved : ℕ → JobStatus → Table → Type 0
Moved i s t = (k : Job) × (get_job i t ≡ some k) × Moves s k.status

queued-starts : (s : JobStatus) → same_status s queued ≡ true → Moves s running
queued-starts queued h = starts
queued-starts running h = absurd (ground (arith, h))
queued-starts succeeded h = absurd (ground (arith, h))
queued-starts failed h = absurd (ground (arith, h))
queued-starts cancelled h = absurd (ground (arith, h))

queued-withdraws : (s : JobStatus) → same_status s queued ≡ true → Moves s cancelled
queued-withdraws queued h = withdraws
queued-withdraws running h = absurd (ground (arith, h))
queued-withdraws succeeded h = absurd (ground (arith, h))
queued-withdraws failed h = absurd (ground (arith, h))
queued-withdraws cancelled h = absurd (ground (arith, h))

-- An owned row is running, or it has succeeded.
owned-cases :
    (j : Job) (w : ℕ)
    → IsRow j
    → holds j.locked_by w ≡ true
    → (j.status ≡ running) ⊎ (j.status ≡ succeeded)
owned-cases j w h own = go j.status refl
  where
    go : (s : JobStatus) → j.status ≡ s → (j.status ≡ running) ⊎ (j.status ≡ succeeded)
    go queued e = absurd (ground (arith, e, h, own))
    go running e = inl e
    go succeeded e = inr e
    go failed e = absurd (ground (arith, e, h, own))
    go cancelled e = absurd (ground (arith, e, h, own))

map_where-Moved :
    (i : ℕ) (p : Job → Bool) (f : Job → Job) (t : Table) (j : Job)
    → KeepsId f
    → get_job i t ≡ some j
    → (p j ≡ true → Moves j.status (f j).status)
    → Moved i j.status (map_where p f t)
map_where-Moved i p f t j keeps h m = elim (Bool-cases (p j)) [
  | inl e ↦ (f j, get_job-map_where i p f t keeps ∙ rw h (rw e refl), m e)
  | inr e ↦ (j, get_job-map_where i p f t keeps ∙ rw h (rw e refl), stays)
]

owned-Moves :
    (s s' : JobStatus)
    → Moves running s'
    → Moves succeeded s'
    → (s ≡ running) ⊎ (s ≡ succeeded)
    → Moves s s'
owned-Moves s s' m n (inl e) = subst (λ x. Moves x s') (sym e) m
owned-Moves s s' m n (inr e) = subst (λ x. Moves x s') (sym e) n

failure-Moves :
    (retryable : Bool) (now : ℕ) (code message : String) (seen j : Job)
    → (j.status ≡ running) ⊎ (j.status ≡ succeeded)
    → Moves j.status (failure retryable now code message seen j).status
failure-Moves retryable now code message seen j own =
    elim (Bool-cases (should_retry retryable seen)) [
      | inl e ↦ rw e (owned-Moves j.status queued returns reopens own)
      | inr e ↦ rw e (owned-Moves j.status failed fails revokes own)
    ]

running-Moves : (s s' : JobStatus) → Moves running s' → same_status s running ≡ true → Moves s s'
running-Moves running s' m h = m
running-Moves queued s' m h = absurd (ground (arith, h))
running-Moves succeeded s' m h = absurd (ground (arith, h))
running-Moves failed s' m h = absurd (ground (arith, h))
running-Moves cancelled s' m h = absurd (ground (arith, h))

reaped-Moved :
    (i now : ℕ) (t : Table) (j : Job)
    → get_job i t ≡ some j
    → Moved i j.status (reap_expired_leases now t).1
unfolding reap_expired_leases
reaped-Moved i now t j h =
    let first = get_job-map_where i (requeue_where now) (requeued now) t (λ k. refl) in
    elim (Bool-cases (requeue_where now j)) [
      | inl e ↦
          let row : get_job i (map_where (requeue_where now) (requeued now) t)
              ≡ some (requeued now j) =
            first ∙ rw h (rw e refl) in
          (
            requeued now j,
            get_job-map_where i (abandon_where now) (abandoned now) _ (λ k. refl) ∙ rw row refl,
            running-Moves j.status queued returns (ground (arith, e)),
          )
      | inr e ↦
          let row : get_job i (map_where (requeue_where now) (requeued now) t) ≡ some j =
            first ∙ rw h (rw e refl) in
          map_where-Moved i (abandon_where now) (abandoned now) _ j (λ k. refl) row
            (λ q. running-Moves j.status failed fails (ground (arith, q)))
    ]

claimed-Moved :
    (i worker lease now : ℕ) (t : Table) (c j : Job)
    → same_status c.status queued ≡ true
    → get_job c.id t ≡ some c
    → get_job i t ≡ some j
    → Moved i j.status (map_where (λ k. k.id == c.id) (claimed worker now lease) t)
claimed-Moved i worker lease now t c j q found h =
    map_where-Moved i (λ k. k.id == c.id) (claimed worker now lease) t j (λ k. refl) h
      (λ e.
        let same : i ≡ c.id = sym (get_job-id i t h) ∙ ground (arith, e) in
        let row : j ≡ c = some_inj (sym h ∙ ap (λ k. get_job k t) same ∙ found) in
        queued-starts j.status (subst (λ x. same_status x.status queued ≡ true) (sym row) q))

-- Each operation on a valid table, a failure being reported from the row of the present claim,
-- moves the status of each job as the machine `Moves` allows: a job runs only after it was queued,
-- is cancelled only while it is queued, and never leaves a failure or a cancellation; and no job
-- disappears.
pub run_op-Moves :
    (op : Op) (i : ℕ) (t : Table) (j : Job)
    → IsFreshOp op t
    → IsValid t
    → get_job i t ≡ some j
    → (k : Job) × (get_job i (run_op op t) ≡ some k) × Moves j.status k.status
unfolding run_op
run_op-Moves (enqueue id now user_id job_type params priority project_id webhook_url) i t j f v h =
    (
      j,
      get_job-enqueue i id now user_id job_type params priority project_id default_max_attempts
          webhook_url t h,
      stays,
    )
run_op-Moves (claim skip worker lease now) i t j f v h =
    elim (claim_job-table skip worker lease now t v.1) [
      | inl e ↦ subst (λ r. Moved i j.status r.1) (sym e) (j, h, stays)
      | inr (c, ce, e) ↦
          let (m, q) = candidate-In skip now t c ce in
          subst (λ r. Moved i j.status r.1) (sym e)
            (claimed-Moved i worker lease now t c j (ground (arith, q)) (get_job-In c t v.1 m) h)
    ]
run_op-Moves (claim_selected worker lease now c) i t j f v h =
    rw (claim_selected-table worker lease now c t) (
      map_where-Moved i (claim_where c) (claimed_selected worker now lease c) t j (λ k. refl) h
        (λ q. queued-starts j.status (ground (arith, q))))
run_op-Moves (heartbeat job_id worker lease percent message now) i t j f v h =
    unfold renew_lease in
    map_where-Moved i (heartbeat_where job_id worker) (heartbeat_write now lease percent message) t
      j (λ k. refl) h (λ q. stays)
run_op-Moves (complete job_id worker now) i t j f v h =
    unfold complete_job in
    map_where-Moved i (held_by job_id worker) (completed now) t j (λ k. refl) h
      (λ q.
        owned-Moves j.status succeeded succeeds stays
          (owned-cases j worker (All-get_job IsRow i t v.0 h) (ground (arith, q))))
run_op-Moves (fail cached job_id worker code message retryable now) i t j f v h =
    elim (fail_job-cases cached job_id worker code message retryable now t f) [
      | inl e ↦ subst (λ r. Moved i j.status r.1) (sym e) (j, h, stays)
      | inr (seen, l, found, same, held, e) ↦
          subst (λ r. Moved i j.status r.1) (sym e)
            (map_where-Moved i (λ x. x.id == job_id) (failure retryable now code message seen) t j
              (failure-KeepsId retryable now code message seen) h
              (λ q.
                let same : i ≡ job_id = sym (get_job-id i t h) ∙ ground (arith, q) in
                let row : j ≡ l = some_inj (sym h ∙ ap (λ k. get_job k t) same ∙ found) in
                let own : holds j.locked_by worker ≡ true =
                  subst (λ x. holds x.locked_by worker ≡ true) (sym row) (ground (arith, held)) in
                failure-Moves retryable now code message seen j
                  (owned-cases j worker (All-get_job IsRow i t v.0 h) own)))
    ]
run_op-Moves (reap now) i t j f v h = reaped-Moved i now t j h
run_op-Moves (cancel job_id now) i t j f v h =
    unfold cancel_job in
    map_where-Moved i (cancel_where job_id) (cancelled_at now) t j (λ k. refl) h
      (λ q. queued-withdraws j.status (ground (arith, q)))

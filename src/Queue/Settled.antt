-- ===== src/Queue/Settled.antt =====
-- Jobs that failed or were cancelled are never touched again.
use legacy_doc.Common.{
  ℕ, ◌≡◌, refl, sym, ◌∙◌, ap, subst, inl, inr, Bool, true, false, Option, some, List, [], ◌∷◌, ◌++◌,
  arith, ◌==◌, Bool-cases, Option-cases, some_inj, is_some, String,
}
use legacy_doc.Jobs.{JobStatus, failed, cancelled, queued, Job, JobType, Params, Table}
use legacy_doc.Queue.{
  map_where, get_job, claimed, claimed_selected, claim_where, heartbeat_where, heartbeat_write,
  held_by, completed, failure, requeue_where, requeued, abandon_where, abandoned, cancel_where,
  cancelled_at,
}
use legacy_doc.Queue.{
  enqueue as enqueue_job, heartbeat as renew_lease, complete_job, reap_expired_leases, cancel_job,
  new_job,
}
use legacy_doc.Queue.Rows.{KeepsId, get_job-map_where, get_job-id, get_job-In, All-get_job}
use legacy_doc.Queue.Claim.{candidate-In, claim_job-table, claim_selected-table}
use legacy_doc.Queue.Invariant.{IsValid, IsRow, fail_job-cases, failure-KeepsId}
use legacy_doc.Queue.History.{
  Op, enqueue, claim, claim_selected, heartbeat, complete, fail, reap, cancel, run_op, run_ops,
  run_op-IsValid, IsFreshOp, AreFresh, committed, default_max_attempts,
}

-- Failed and cancelled jobs are settled: no worker owns them.
abbrev pub is_settled : JobStatus → Bool
is_settled failed = true
is_settled cancelled = true
is_settled _ = false

-- A row that an update's test rejects is found as before.
pub get_job-untouched :
    (i : ℕ) (p : Job → Bool) (f : Job → Job) (t : Table) {j : Job}
    → KeepsId f
    → get_job i t ≡ some j
    → p j ≡ false
    → get_job i (map_where p f t) ≡ some j
get_job-untouched i p f t {j = j} k h e = rw (get_job-map_where i p f t k) (rw h (rw e))

pub get_job-append :
    (i : ℕ) (t : Table) (k : Job) {j : Job}
    → get_job i t ≡ some j
    → get_job i (t ++ k ∷ []) ≡ some j
get_job-append i [] k h = cc
get_job-append i (x ∷ t) k {j = j} h = ground (arith, get_job-append i t k {j = j})

pub get_job-enqueue :
    (i id now user_id : ℕ) (job_type : JobType) (params : Params) (priority : ℕ)
    (project_id : Option ℕ) (max_attempts : ℕ) (webhook_url : Option String) (t : Table) {j : Job}
    → get_job i t ≡ some j
    → get_job i (
        committed t (
          enqueue_job id now user_id job_type params priority project_id max_attempts webhook_url
            t))
      ≡ some j
unfolding enqueue_job
get_job-enqueue i id now user_id job_type params priority project_id max_attempts webhook_url t h =
    elim (Option-cases (get_job id t)) [
      | inl e ↦
          rw (e, enqueue_job)
            (get_job-append i t
              (new_job id now user_id job_type params priority project_id max_attempts webhook_url)
              h)
      | inr (k, e) ↦ rw (e, enqueue_job) h
    ]

-- A settled row has another identifier than a queued one.
settled-ne_queued :
    (i : ℕ) (t : Table) (c : Job) {j : Job}
    → c.status ≡ queued
    → get_job c.id t ≡ some c
    → get_job i t ≡ some j
    → is_settled j.status ≡ true
    → (j.id == c.id) ≡ false
settled-ne_queued i t c {j = j} q found h s = elim (Bool-cases (j.id == c.id)) [
  | inl e ↦
      let same : i ≡ c.id = sym (get_job-id i t h) ∙ ground (arith, e) in
      let row : j ≡ c = some_inj (sym h ∙ ap (λ k. get_job k t) same ∙ found) in
      absurd (ground (arith, ap (λ x. x.status) row))
  | inr e ↦ e
]

-- A settled row has another identifier than one that a worker owns.
settled-ne_held :
    (i k : ℕ) (t : Table) (j l : Job)
    → IsRow j
    → is_settled j.status ≡ true
    → get_job i t ≡ some j
    → get_job k t ≡ some l
    → is_some l.locked_by ≡ true
    → (j.id == k) ≡ false
settled-ne_held i k t j l row s h found held = elim (Bool-cases (j.id == k)) [
  | inl e ↦
      let same : i ≡ k = sym (get_job-id i t h) ∙ ground (arith, e) in
      let one : j ≡ l = some_inj (sym h ∙ ap (λ x. get_job x t) same ∙ found) in
      absurd (ground (arith, ap (λ x. x.locked_by) one))
  | inr e ↦ e
]

settled-run_op :
    (op : Op) (i : ℕ) (t : Table) {j : Job}
    → IsFreshOp op t
    → IsValid t
    → get_job i t ≡ some j
    → is_settled j.status ≡ true
    → get_job i (run_op op t) ≡ some j
unfolding run_op
settled-run_op (claim_selected worker lease now c) i t f v h s =
    rw (claim_selected-table worker lease now c t) (
      get_job-untouched i (claim_where c) (claimed_selected worker now lease c) t (λ k. refl) h
        (ground arith))
settled-run_op (enqueue id now user_id job_type params priority project_id webhook_url) i t f v h
      s =
    get_job-enqueue i id now user_id job_type params priority project_id default_max_attempts
      webhook_url t h
settled-run_op (claim skip worker lease now) i t {j = j} f v h s =
    elim (claim_job-table skip worker lease now t v.1) [
      | inl e ↦ subst (λ r. get_job i r.1 ≡ some j) (sym e) h
      | inr (c, ce, e) ↦
          let (m, q) = candidate-In skip now t c ce in
          subst (λ r. get_job i r.1 ≡ some j) (sym e)
            (get_job-untouched i (λ k. k.id == c.id) (claimed worker now lease) t (λ k. refl) h
              (settled-ne_queued i t c (ground (arith, q)) (get_job-In c t v.1 m) h s))
    ]
settled-run_op (heartbeat job_id worker lease percent message now) i t f v h s =
    unfold renew_lease in
    get_job-untouched i (heartbeat_where job_id worker) (heartbeat_write now lease percent message)
      t (λ k. refl) h (ground arith)
settled-run_op (complete job_id worker now) i t {j = j} f v h s =
    unfold complete_job in
    get_job-untouched i (held_by job_id worker) (completed now) t (λ k. refl) h
      (ground (arith, All-get_job IsRow i t v.0 h))
settled-run_op (fail cached job_id worker code message retryable now) i t {j = j} f v h s =
    elim (fail_job-cases cached job_id worker code message retryable now t f) [
      | inl e ↦ subst (λ r. get_job i r.1 ≡ some j) (sym e) h
      | inr (seen, k, found, same, held, e) ↦
          subst (λ r. get_job i r.1 ≡ some j) (sym e)
            (get_job-untouched i (λ x. x.id == job_id) (failure retryable now code message seen) t
              (failure-KeepsId retryable now code message seen) h
              (settled-ne_held i job_id t j k (All-get_job IsRow i t v.0 h) s h found
                (ground (arith, held))))
    ]
settled-run_op (reap now) i t f v h s =
    unfold reap_expired_leases in
    get_job-untouched i (abandon_where now) (abandoned now)
      (map_where (requeue_where now) (requeued now) t) (λ k. refl)
      (get_job-untouched i (requeue_where now) (requeued now) t (λ k. refl) h (ground arith))
      (ground arith)
settled-run_op (cancel job_id now) i t f v h s =
    unfold cancel_job in
    get_job-untouched i (cancel_where job_id) (cancelled_at now) t (λ k. refl) h (ground arith)

-- A job that failed or was cancelled keeps its row, every field included, whatever operations
-- follow: it is never claimed, renewed, completed, failed again or requeued, as long as a worker
-- that reports a failure holds the job's row as of its present claim.
pub settled-run_ops :
    (ops : List Op) (i : ℕ) (t : Table) {j : Job}
    → AreFresh ops t
    → IsValid t
    → get_job i t ≡ some j
    → is_settled j.status ≡ true
    → get_job i (run_ops ops t) ≡ some j
unfolding run_ops
settled-run_ops [] i t f v h s = h
settled-run_ops (op ∷ ops) i t (f, fs) v h s =
    settled-run_ops ops i (run_op op t) fs (run_op-IsValid op t f v) (settled-run_op op i t f v h s)
      s

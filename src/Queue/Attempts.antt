-- ===== src/Queue/Attempts.antt =====
-- A job is claimed at most as often as its attempts allow.
use legacy_doc.Common.{
  ℕ, ◌+◌, ◌≤◌, ◌≡◌, refl, sym, ◌∙◌, ap, subst, count, inl, inr, Bool, true, false, Option, none,
  some, List, [], ◌∷◌, arith, ◌==◌, if◌then◌else◌, Bool-cases, some_inj,
}
use legacy_doc.Jobs.{Job, Table, queued, same_status}
use legacy_doc.Queue.{
  map_where, get_job, claimed, claimed_selected, claim_where, heartbeat_where, heartbeat_write,
  held_by, completed, failure, requeue_where, requeued, abandon_where, abandoned, cancel_where,
  cancelled_at, claim_job, claim_selected as claim_selected_job, heartbeat as renew_lease,
  complete_job, reap_expired_leases, cancel_job,
}
use legacy_doc.Queue.Rows.{
  KeepsId, count-OnlyAt, Distinct, get_job-map_id, get_job-map_where, get_job-id, get_job-In,
  All-get_job,
}
use legacy_doc.Queue.Claim.{candidate-In, claim_job-table, claim_selected-table}
use legacy_doc.Queue.Invariant.{IsValid, IsRow, fail_job-cases, failure-KeepsId}
use legacy_doc.Queue.History.{
  Op, enqueue, claim, claim_selected, heartbeat, complete, fail, reap, cancel, run_op, run_ops,
  run_op-IsValid, IsFreshOp, AreFresh, default_max_attempts,
}
use legacy_doc.Queue.Settled.{get_job-enqueue, get_job-untouched, is_settled, settled-run_ops}

-- 1 if a claim handed out the job of this identifier.
abbrev handed_out : ℕ → Option Job → ℕ
handed_out i none = 0
handed_out i (some j) = if j.id == i then 1 else 0

abbrev claims_op : ℕ → Op → Table → ℕ
claims_op i (claim skip worker lease now) t = handed_out i (claim_job skip worker lease now t).0
claims_op i (claim_selected worker lease now c) t =
    handed_out i (claim_selected_job worker lease now c t).0
claims_op i _ t = 0

-- How often a job is handed to a worker during a sequence of operations.
abbrev pub claims : ℕ → List Op → Table → ℕ
claims i [] t = 0
claims i (op ∷ ops) t = claims_op i op t + claims i ops (run_op op t)

-- The row of `i` in `t'` has `n` more attempts than `j`, and the same maximum.
abbrev Counts : ℕ → Job → ℕ → Table → Type 0
Counts i j n t' =
    (k : Job) × (get_job i t' ≡ some k)
    × (k.attempts ≡ j.attempts + n)
    × (k.max_attempts ≡ j.max_attempts)

-- An update that writes no attempt counts none.
Counts-map_where :
    (i : ℕ) (p : Job → Bool) (f : Job → Job) (t : Table) (j : Job)
    → KeepsId f
    → ((k : Job) → (f k).attempts ≡ k.attempts)
    → ((k : Job) → (f k).max_attempts ≡ k.max_attempts)
    → get_job i t ≡ some j
    → Counts i j 0 (map_where p f t)
Counts-map_where i p f t j k a m h = (
  (if p j then f j else j),
  rw (get_job-map_where i p f t k) (rw h),
  ground (arith, a j),
  ground (arith, m j),
)

Counts-claimed :
    (i worker now lease : ℕ) (t : Table) (c j : Job)
    → get_job c.id t ≡ some c
    → get_job i t ≡ some j
    → Counts i j
        (handed_out i (some (claimed worker now lease c)))
        (map_where (λ k. k.id == c.id) (claimed worker now lease) t)
Counts-claimed i worker now lease t c j found h =
    let step = get_job-map_id i c.id (claimed worker now lease) t (λ k. refl) in
    elim (Bool-cases (i == c.id)) [
      | inl e ↦
          let same : j ≡ c = some_inj (sym h ∙ ap (λ x. get_job x t) (ground (arith, e)) ∙ found) in
          (
            claimed worker now lease j,
            ground (arith, step, h, e),
            ground (arith, e, ap (λ x. x.attempts) same),
            refl,
          )
      | inr e ↦ (j, ground (arith, step, h, e), ground (arith, e), refl)
    ]

-- With distinct identifiers the guarded update finds one row if the job is still queued, else none.
count-claim_where :
    (c : Job) (t : Table) {j : Job}
    → Distinct t
    → get_job c.id t ≡ some j
    → count (claim_where c) t ≡ (if same_status j.status queued then 1 else 0)
count-claim_where c t {j = j} d h =
    count-OnlyAt c.id (claim_where c) t (λ k e. ground (arith, e)) d h
    ∙ ground (arith, get_job-id c.id t h)

claim_selected-found :
    (w lease now : ℕ) (c : Job) (t : Table) {j : Job}
    → Distinct t
    → get_job c.id t ≡ some j
    → same_status j.status queued ≡ true
    → claim_selected_job w lease now c t ≡ (
      some (claimed_selected w now lease c j),
      map_where (claim_where c) (claimed_selected w now lease c) t,
    )
unfolding claim_selected_job
claim_selected-found w lease now c t {j = j} d h q =
    let one : count (claim_where c) t ≡ 1 = rw (count-claim_where c t d h) (rw q) in
    let row =
      get_job-map_where c.id (claim_where c) (claimed_selected w now lease c) t (λ k. refl) in
    rw one (
      ap (λ o. (o, map_where (claim_where c) (claimed_selected w now lease c) t))
        (row ∙ ground (arith, h, q, get_job-id c.id t h)))

claim_selected-missed :
    (w lease now : ℕ) (c : Job) (t : Table) {j : Job}
    → Distinct t
    → get_job c.id t ≡ some j
    → same_status j.status queued ≡ false
    → claim_selected_job w lease now c t ≡ (none, t)
unfolding claim_selected_job
claim_selected-missed w lease now c t {j = j} d h q =
    let zero_left : count (claim_where c) t ≡ 0 = rw (count-claim_where c t d h) (rw q) in
    rw zero_left

handed_out-get_job : (i k : ℕ) (t : Table) → (i == k) ≡ false → handed_out i (get_job k t) ≡ 0
handed_out-get_job i k [] h = refl
handed_out-get_job i k (j ∷ t) h = ground (arith, h, handed_out-get_job i k t h)

handed_out-selected :
    (i w lease now : ℕ) (c : Job) (t : Table)
    → (i == c.id) ≡ false
    → handed_out i (claim_selected_job w lease now c t).0 ≡ 0
unfolding claim_selected_job
handed_out-selected i w lease now c t h = elim (Bool-cases (count (claim_where c) t == 0)) [
  | inl e ↦ rw e
  | inr e ↦
      rw e
        (handed_out-get_job i c.id (map_where (claim_where c) (claimed_selected w now lease c) t) h)
]

Counts-selected :
    (i worker lease now : ℕ) (c : Job) (t : Table) (j : Job)
    → Distinct t
    → get_job i t ≡ some j
    → Counts i j
        (handed_out i (claim_selected_job worker lease now c t).0)
        (claim_selected_job worker lease now c t).1
Counts-selected i worker lease now c t j d h = elim (Bool-cases (i == c.id)) [
  | inl e ↦
      let same : i ≡ c.id = ground (arith, e) in
      let found : get_job c.id t ≡ some j = subst (λ x. get_job x t ≡ some j) same h in
      elim (Bool-cases (same_status j.status queued)) [
        | inl q ↦
            subst (λ r. Counts i j (handed_out i r.0) r.1)
              (sym (claim_selected-found worker lease now c t d found q))
              (
                claimed_selected worker now lease c j,
                get_job-map_where i (claim_where c) (claimed_selected worker now lease c) t
                      (λ k. refl)
                    ∙ ground (arith, h, e, q, get_job-id i t h),
                ground (arith, get_job-id i t h),
                refl,
              )
        | inr q ↦
            subst (λ r. Counts i j (handed_out i r.0) r.1)
              (sym (claim_selected-missed worker lease now c t d found q)) (j, h, omega arith, refl)
      ]
  | inr e ↦ (
    j,
    rw (claim_selected-table worker lease now c t) (
        get_job-untouched i (claim_where c) (claimed_selected worker now lease c) t (λ k. refl) h
          (ground (arith, e, get_job-id i t h))),
    ground (arith, handed_out-selected i worker lease now c t e),
    refl,
  )
]

Counts-run_op :
    (op : Op) (i : ℕ) (t : Table) (j : Job)
    → IsFreshOp op t
    → IsValid t
    → get_job i t ≡ some j
    → Counts i j (claims_op i op t) (run_op op t)
unfolding run_op
Counts-run_op (claim_selected worker lease now c) i t j f v h =
    Counts-selected i worker lease now c t j v.1 h
Counts-run_op (enqueue id now user_id job_type params priority project_id webhook_url) i t j f v h =
    (
      j,
      get_job-enqueue i id now user_id job_type params priority project_id default_max_attempts
          webhook_url t h,
      omega arith,
      refl,
    )
Counts-run_op (claim skip worker lease now) i t j f v h =
    elim (claim_job-table skip worker lease now t v.1) [
      | inl e ↦ subst (λ r. Counts i j (handed_out i r.0) r.1) (sym e) (j, h, omega arith, refl)
      | inr (c, ce, e) ↦
          subst (λ r. Counts i j (handed_out i r.0) r.1) (sym e)
            (Counts-claimed i worker now lease t c j
              (get_job-In c t v.1 (candidate-In skip now t c ce).0) h)
    ]
Counts-run_op (heartbeat job_id worker lease percent message now) i t j f v h =
    unfold renew_lease in
    Counts-map_where i (heartbeat_where job_id worker) (heartbeat_write now lease percent message) t
      j (λ k. refl) (λ k. refl) (λ k. refl) h
Counts-run_op (complete job_id worker now) i t j f v h =
    unfold complete_job in
    Counts-map_where i (held_by job_id worker) (completed now) t j (λ k. refl) (λ k. refl)
      (λ k. refl) h
Counts-run_op (fail cached job_id worker code message retryable now) i t j f v h =
    elim (fail_job-cases cached job_id worker code message retryable now t f) [
      | inl e ↦ subst (λ r. Counts i j 0 r.1) (sym e) (j, h, omega arith, refl)
      | inr (seen, l, found, same, held, e) ↦
          subst (λ r. Counts i j 0 r.1) (sym e)
            (Counts-map_where i (λ x. x.id == job_id) (failure retryable now code message seen) t j
              (failure-KeepsId retryable now code message seen) (λ k. ground arith)
              (λ k. ground arith) h)
    ]
Counts-run_op (reap now) i t j f v h =
    unfold reap_expired_leases in
    let (k, hk, ak, mk) =
      Counts-map_where i (requeue_where now) (requeued now) t j (λ k. refl) (λ k. refl) (λ k. refl)
        h in
    let (l, hl, al, ml) =
      Counts-map_where i (abandon_where now) (abandoned now)
        (map_where (requeue_where now) (requeued now) t) k (λ k. refl) (λ k. refl) (λ k. refl) hk in
    (l, hl, omega (arith, ak, al), ml ∙ mk)
Counts-run_op (cancel job_id now) i t j f v h =
    unfold cancel_job in
    Counts-map_where i (cancel_where job_id) (cancelled_at now) t j (λ k. refl) (λ k. refl)
      (λ k. refl) h

-- However claims, heartbeats, failures, retries and lease expiries interleave, as long as a worker
-- that reports a failure holds the job's row as of its present claim, a job is handed to a worker
-- at most as often as it has attempts left: the claims of it that succeed, together with the
-- attempts it had at the start, never exceed its maximum.
pub claims_bounded :
    (ops : List Op) (i : ℕ) (t : Table) {j : Job}
    → AreFresh ops t
    → IsValid t
    → get_job i t ≡ some j
    → claims i ops t + j.attempts ≤ j.max_attempts
unfolding run_ops
claims_bounded [] i t f v h = omega (arith, (All-get_job IsRow i t v.0 h).0)
claims_bounded (op ∷ ops) i t {j = j} (f, fs) v h =
    let (k, found, counted, same) = Counts-run_op op i t j f v h in
    omega (
      arith,
      claims_bounded ops i (run_op op t) {j = k} fs (run_op-IsValid op t f v) found,
      counted,
      same,
    )

Counts-run_ops :
    (ops : List Op) (i : ℕ) (t : Table) (j : Job)
    → AreFresh ops t
    → IsValid t
    → get_job i t ≡ some j
    → Counts i j (claims i ops t) (run_ops ops t)
unfolding run_ops
Counts-run_ops [] i t j f v h = (j, h, omega arith, refl)
Counts-run_ops (op ∷ ops) i t j (f, fs) v h =
    let (k, found, counted, same) = Counts-run_op op i t j f v h in
    let (l, found', counted', same') =
      Counts-run_ops ops i (run_op op t) k fs (run_op-IsValid op t f v) found in
    (l, found', omega (arith, counted, counted'), same' ∙ same)

-- A job that was cancelled in time, or that failed for good, is never handed to a worker again, as
-- long as failures are reported from rows of the present claim.
pub settled-unclaimed :
    (ops : List Op) (i : ℕ) (t : Table) {j : Job}
    → AreFresh ops t
    → IsValid t
    → get_job i t ≡ some j
    → is_settled j.status ≡ true
    → claims i ops t ≡ 0
settled-unclaimed ops i t {j = j} f v h s =
    let (k, found, counted, _) = Counts-run_ops ops i t j f v h in
    let same : k ≡ j = some_inj (sym found ∙ settled-run_ops ops i t f v h s) in
    omega (arith, counted, ap (λ x. x.attempts) same)

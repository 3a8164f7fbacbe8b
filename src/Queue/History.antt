-- ===== src/Queue/History.antt =====
-- Any sequence of operations on the queue, by any workers at any instants: the interleavings of the
-- API, the worker slots and the reaper, each operation being one transaction.
use legacy_doc.Common.{
  ℕ, Bool, Option, none, some, List, [], ◌∷◌, String, arith, Option-cases, inl, inr,
}
use legacy_doc.Jobs.{Job, JobType, Params, Table}
use legacy_doc.Queue.{
  enqueue as enqueue_job, claim_job, claim_selected as claim_selected_job, heartbeat as renew_lease,
  complete_job, fail_job, reap_expired_leases, cancel_job,
}
use legacy_doc.Queue.Invariant.{
  IsValid, IsFresh, enqueue-IsValid, claim_job-IsValid, claim_selected-IsValid, heartbeat-IsValid,
  complete_job-IsValid, fail_job-IsValid, reap_expired_leases-IsValid, cancel_job-IsValid,
}

-- A call of an operation with its arguments. `enqueue` takes its default of three attempts, as every
-- caller does.
pub data Op : Type 0 where
  enqueue : ℕ → ℕ → ℕ → JobType → Params → ℕ → Option ℕ → Option String → Op
  claim : (ℕ → Bool) → ℕ → ℕ → ℕ → Op
  claim_selected : ℕ → ℕ → ℕ → Job → Op
  heartbeat : ℕ → ℕ → ℕ → Option ℕ → Option String → ℕ → Op
  complete : ℕ → ℕ → ℕ → Op
  fail : Option Job → ℕ → ℕ → String → String → Bool → ℕ → Op
  reap : ℕ → Op
  cancel : ℕ → ℕ → Op

abbrev pub default_max_attempts : ℕ
default_max_attempts = 3

-- The table after an `enqueue`; the violated primary key rolls the transaction back.
abbrev pub committed : Table → Option (Job × Table) → Table
committed t none = t
committed t (some (j, t')) = t'

-- The table after one operation.
unfoldable pub run_op : Op → Table → Table
run_op (enqueue id now user_id job_type params priority project_id webhook_url) t = committed t (
    enqueue_job id now user_id job_type params priority project_id default_max_attempts webhook_url
      t)
run_op (claim skip worker lease now) t = (claim_job skip worker lease now t).1
run_op (claim_selected worker lease now c) t = (claim_selected_job worker lease now c t).1
run_op (heartbeat job_id worker lease percent message now) t =
    (renew_lease job_id worker lease percent message now t).1
run_op (complete job_id worker now) t = complete_job job_id worker now t
run_op (fail cached job_id worker code message retryable now) t =
    (fail_job cached job_id worker code message retryable now t).1
run_op (reap now) t = (reap_expired_leases now t).1
run_op (cancel job_id now) t = (cancel_job job_id now t).1

unfoldable pub run_ops : List Op → Table → Table
run_ops [] t = t
run_ops (op ∷ ops) t = run_ops ops (run_op op t)

-- A failure is reported from a fresh row; the other operations hold no row of the session.
abbrev pub IsFreshOp : Op → Table → Type 0
IsFreshOp (fail cached job_id worker code message retryable now) t = IsFresh cached job_id t
IsFreshOp _ t = Unit

-- Each failure is reported from a row that is fresh when it is reported.
abbrev pub AreFresh : List Op → Table → Type 0
AreFresh [] t = Unit
AreFresh (op ∷ ops) t = IsFreshOp op t × AreFresh ops (run_op op t)

pub run_op-IsValid : (op : Op) (t : Table) → IsFreshOp op t → IsValid t → IsValid (run_op op t)
unfolding run_op
run_op-IsValid (enqueue id now user_id job_type params priority project_id webhook_url) t f v =
    elim (Option-cases (
      enqueue_job id now user_id job_type params priority project_id default_max_attempts
        webhook_url t)) [
          | inl e ↦ rw e v
          | inr ((j, t'), e) ↦ rw e (
              enqueue-IsValid id now user_id job_type params priority project_id
                default_max_attempts webhook_url t (omega arith) v e)
        ]
run_op-IsValid (claim skip worker lease now) t f v = claim_job-IsValid skip worker lease now t v
run_op-IsValid (claim_selected worker lease now c) t f v =
    claim_selected-IsValid worker lease now c t v
run_op-IsValid (heartbeat job_id worker lease percent message now) t f v =
    heartbeat-IsValid job_id worker lease percent message now t v
run_op-IsValid (complete job_id worker now) t f v = complete_job-IsValid job_id worker now t v
run_op-IsValid (fail cached job_id worker code message retryable now) t f v =
    fail_job-IsValid cached job_id worker code message retryable now t f v
run_op-IsValid (reap now) t f v = reap_expired_leases-IsValid now t v
run_op-IsValid (cancel job_id now) t f v = cancel_job-IsValid job_id now t v

-- Whatever operations run on a valid table, and in whatever order, the table stays valid, as long
-- as a worker that reports a failure holds the job's row as of its present claim: identifiers are
-- distinct, attempts stay within the maximum and progress within 100, a queued job is free and has
-- an attempt left, a running job has an owner, a lease and an attempt behind it, and a finished
-- job has no lease and a finishing time, and is owned only if it succeeded.
pub run_ops-IsValid :
    (ops : List Op) (t : Table) → AreFresh ops t → IsValid t → IsValid (run_ops ops t)
unfolding run_ops
run_ops-IsValid [] t f v = v
run_ops-IsValid (op ∷ ops) t (f, fs) v =
    run_ops-IsValid ops (run_op op t) fs (run_op-IsValid op t f v)

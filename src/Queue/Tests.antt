-- ===== src/Queue/Tests.antt =====
-- Runs of the queue on small tables, and its theorems at concrete inputs.
use legacy_doc.Common.{
  ℕ, ◌+◌, ◌≤◌, ◌≡◌, ◌≢◌, refl, Bool, true, false, ◌&&◌, Option, none, some, List, [], ◌∷◌, arith,
  ◌==◌, if◌then◌else◌, All,
}
use mathlib.Core.Option
use legacy_doc.Jobs.{queued, JobStatus, document_snippet, no_params, succeeded, Job, Table, note}
use legacy_doc.Queue.{
  new_job, get_job, eligible, precedes, claimed, claim_job, heartbeat, complete_job, backoff,
  fail_job, reap_expired_leases, cancelled_at, candidate, first_of_order,
}
use legacy_doc.Queue.Claim.{claim_job_takes, claim_job_exclusive}
use legacy_doc.Queue.Invariant.{IsValid}
use legacy_doc.Queue.Machine.{Moves, run_op-Moves}
use legacy_doc.Queue.History.{
  Op, claim, heartbeat as beat, complete, fail, reap, run_op, run_ops, run_ops-IsValid, AreFresh,
}
use legacy_doc.Queue.Settled.{settled-run_ops}
use legacy_doc.Queue.Attempts.{claims, claims_bounded}
use legacy_doc.Queue.Lease.{no_locks, reaped_locks_out, stale_failure_requeues}

-- Two queued jobs: the second has the smaller priority number, so it comes first.
abbrev slow : Job
slow = new_job 1 100 7 document_snippet no_params 100 none 3 none

abbrev quick : Job
quick = new_job 2 120 8 document_snippet no_params 10 none 3 none

abbrev waiting : Table
waiting = slow ∷ quick ∷ []

abbrev free : ℕ → Bool
free _ = false

-- Worker 5 runs the second job with a lease up to the instant 260.
abbrev busy : Table
busy = slow ∷ claimed 5 200 60 quick ∷ []

abbrev revoked : Table
revoked = slow ∷ cancelled_at 130 quick ∷ []

claim_job-quick : claim_job free 5 60 200 waiting ≡ (some (claimed 5 200 60 quick), busy)
unfolding claim_job candidate first_of_order
claim_job-quick = refl

claim_job-slow :
    claim_job free 6 60 200 busy
    ≡ (some (claimed 6 200 60 slow), claimed 6 200 60 slow ∷ claimed 5 200 60 quick ∷ [])
unfolding claim_job candidate first_of_order
claim_job-slow = refl

-- The delays in seconds after each failed attempt.
backoff_table :
    (backoff 1 ≡ 30) × (backoff 2 ≡ 60) × (backoff 3 ≡ 120) × (backoff 5 ≡ 480) × (backoff 6 ≡ 900)
unfolding backoff
backoff_table = (refl, refl, refl, refl, refl)

waiting-IsValid : IsValid waiting
waiting-IsValid = ground arith

busy-IsValid : IsValid busy
busy-IsValid = ground arith

revoked-IsValid : IsValid revoked
revoked-IsValid = ground arith

-- The second job as worker 6 claims it after the reaper has requeued it.
abbrev second_claim : Job
second_claim = record (claimed 6 310 60 (claimed 5 200 60 quick)) { scheduled_at = 300 }

-- A claim, a heartbeat, a lost lease, a second claim, a failure that its owner reports, and the third
-- attempt, which completes.
abbrev story : Option Job → List Op
story cached =
    claim free 5 60 200
    ∷ beat 2 5 60 (some 40) (some "Clonando...") 210
    ∷ reap 300
    ∷ claim free 6 60 310
    ∷ complete 2 5 320
    ∷ fail cached 2 6 "internal_error" "boom" true 330
    ∷ claim free 6 60 400
    ∷ complete 2 6 410
    ∷ []

story-succeeds :
    Option.map {B = JobStatus × ℕ × Option ℕ}
      (λ j. (j.status, j.attempts, j.locked_by))
      (get_job 2 (run_ops (story (some second_claim)) waiting))
    ≡ some (succeeded, 3, some 6)
unfolding run_ops run_op claim_job candidate first_of_order heartbeat reap_expired_leases
    complete_job fail_job backoff
story-succeeds = refl

story-AreFresh : AreFresh (story (some second_claim)) waiting
unfolding run_op claim_job candidate first_of_order heartbeat reap_expired_leases complete_job
story-AreFresh = (
  tt,
  (
    tt,
    (
      tt,
      (
        tt,
        (
          tt,
          (
            (
              record second_claim {
                progress_percent = 40;
                progress_message = some (note "Worker perdeu o lease; reenfileirado.");
                started_at = some 200;
              },
              refl,
              (refl, refl, refl),
            ),
            (tt, (tt, tt)),
          ),
        ),
      ),
    ),
  ),
)

-- The same operations, the failure being reported in a session that has not read the job.
abbrev unread : List Op
unread = story none

unread-AreFresh : AreFresh unread revoked
unread-AreFresh = (tt, (tt, (tt, (tt, (tt, (tt, (tt, (tt, tt))))))))

run_ops-IsValid_example : IsValid (run_ops (story (some second_claim)) waiting)
run_ops-IsValid_example =
    run_ops-IsValid (story (some second_claim)) waiting story-AreFresh waiting-IsValid

claim_job_takes_example :
    (c : Job) × (get_job c.id waiting ≡ some c)
    × (eligible free 200 c ≡ true)
    × All (λ k. (eligible free 200 k && precedes k c) ≡ false) waiting
    × (claimed 5 200 60 quick ≡ claimed 5 200 60 c)
    × (get_job 1 busy ≡ (if 1 == c.id then some (claimed 5 200 60 quick) else get_job 1 waiting))
claim_job_takes_example = claim_job_takes free 5 60 200 1 waiting waiting-IsValid.1 claim_job-quick

claim_job_exclusive_example : (claimed 5 200 60 quick).id ≢ (claimed 6 200 60 slow).id
claim_job_exclusive_example =
    claim_job_exclusive free free 5 6 60 60 200 200 waiting waiting-IsValid.1 claim_job-quick
      claim_job-slow

claims_bounded_example : claims 2 (story (some second_claim)) waiting + 0 ≤ 3
claims_bounded_example =
    claims_bounded (story (some second_claim)) 2 waiting story-AreFresh waiting-IsValid refl

settled-run_ops_example : get_job 2 (run_ops unread revoked) ≡ some (cancelled_at 130 quick)
settled-run_ops_example = settled-run_ops unread 2 revoked unread-AreFresh revoked-IsValid refl refl

reaped_locks_out_example :
    let t' = (reap_expired_leases 300 busy).1 in
    (heartbeat 2 5 60 none none 301 t' ≡ (false, t')) × (complete_job 2 5 301 t' ≡ t')
reaped_locks_out_example = reaped_locks_out 2 5 60 300 301 none none busy busy-IsValid.1 refl refl

-- Worker 5 still has the row of its claim when worker 6 runs the last attempt.
abbrev last_attempt : Job
last_attempt = record (claimed 6 310 60 quick) { attempts = 3 }

stale_failure_requeues_example :
    let (answer, t') =
      fail_job
        (some (claimed 5 200 60 quick))
        2
        5
        "internal_error"
        "boom"
        true
        320
        (slow ∷ last_attempt ∷ []) in
    (answer ≡ true)
    × (k : Job) × (get_job 2 t' ≡ some k)
    × (eligible no_locks 1220 k ≡ true)
    × (k.attempts ≡ k.max_attempts)
    × ¬ IsValid t'
stale_failure_requeues_example =
    stale_failure_requeues 2 5 320 "internal_error" "boom" (slow ∷ last_attempt ∷ [])
      (claimed 5 200 60 quick) last_attempt refl (ground arith) (ground arith) refl refl

run_op-Moves_example :
    (k : Job) × (get_job 2 (run_op (claim free 5 60 200) waiting) ≡ some k) × Moves queued k.status
run_op-Moves_example = run_op-Moves (claim free 5 60 200) 2 waiting quick tt waiting-IsValid refl

-- ===== src/Worker/Rounds.antt =====
-- A job that is alone in the queue comes to an end, whatever becomes of the workers that take it.
use legacy_doc.Common.{
  ℕ, zero, suc, ◌+◌, ◌-◌, ◌≤◌, ◌<◌, ◌≡◌, refl, sym, ap, ◌∙◌, subst, Bool, true, false, Bool-cases,
  inl, inr, ◌⊎◌, Option, none, some, List, [], ◌∷◌, String, ltb, if◌then◌else◌, if_true, ◌==◌,
  arith, append, decimal, length, is_some, All,
}
use legacy_doc.Jobs.{Job, queued, running, is_terminal, same_status, Table, note}
use legacy_doc.Queue.{
  claim_job, candidate, first_of_order, claimed, map_where, fail_job, complete_job, completed,
  failure, should_retry, reap_expired_leases, requeued, abandoned, heartbeat, heartbeat_where,
  heartbeat_write, lease_passed,
}
use legacy_doc.Queue.Backoff.{backoff_bounds}
use legacy_doc.Queue.Lease.{no_locks}
use legacy_doc.Queue.Claim.{claim_job_of_candidate, claim_job_of_none}
use legacy_doc.Worker.{Db, JobWarning, JobOutcome, Result, returned, refused, crashed, unusable}
use legacy_doc.Worker.Runner.{settle, failed_with, with_notice}

-- A heartbeat of a processing: at which instant, and the progress and the message it writes.
pub record Beat : Type 0 where
  pub at : ℕ
  pub percent : ℕ
  pub message : String

-- The heartbeats of a processing, one after the other.
abbrev pub beat_all : (worker lease job_id : ℕ) → List Beat → Table → Table
beat_all worker lease job_id [] t = t
beat_all worker lease job_id (b ∷ bs) t =
    beat_all worker lease job_id bs
      (heartbeat job_id worker lease (some b.percent) (some b.message) b.at t).1

-- The processing of a claimed job: its heartbeats, and its end at `ended`.
abbrev settle_claimed :
    (JobWarning → String)
    → (worker lease ended : ℕ) → List Beat
    → Result JobOutcome
    → Option Job
    → Db
    → Db
settle_claimed warning_text worker lease ended beats answer none db = db
settle_claimed warning_text worker lease ended beats answer (some job) db =
    (settle warning_text worker ended job answer
      (record db { jobs = beat_all worker lease job.id beats db.jobs })).1

-- One attempt at `now`: a worker claims a job, the processing renews the lease with each of its
-- heartbeats and ends with `answer` within `span`, and the reaper runs once the last lease has
-- passed. An `unusable` answer leaves the row alone, as a worker that dies does after any of its
-- heartbeats.
unfoldable pub attempt :
    (JobWarning → String) → (worker lease span now : ℕ) → List Beat × Result JobOutcome → Db → Db
attempt warning_text worker lease span now (beats, answer) db =
    let (claimed, jobs) = claim_job no_locks worker lease now db.jobs in
    let db' =
      settle_claimed warning_text worker lease (now + span) beats answer claimed
        (record db { jobs = jobs }) in
    record db' { jobs = (reap_expired_leases (now + span + lease + 1) db'.jobs).1 }

-- `n` attempts, far enough apart for the longest delay of a retry.
unfoldable pub attempts :
    (JobWarning → String)
    → (worker lease span : ℕ) → (ℕ → List Beat × Result JobOutcome)
    → (n now : ℕ) → Db
    → Db
attempts warning_text worker lease span answers zero now db = db
attempts warning_text worker lease span answers (suc n) now db =
    attempts warning_text worker lease span answers n (now + span + lease + 1000)
      (attempt warning_text worker lease span now (answers n) db)

-- The job has ended, or it waits for an attempt that may start at `now`, of `n` at most.
abbrev Waits : (n now : ℕ) → Job → Type 0
Waits n now j =
    (j.status ≡ queued)
    × (j.scheduled_at ≤ now)
    × (j.attempts < j.max_attempts)
    × (j.max_attempts ≤ j.attempts + n)

abbrev Stands : (n now : ℕ) → Table → Type 0
Stands n now t = (k : Job) × (t ≡ k ∷ []) × ((is_terminal k.status ≡ true) ⊎ Waits n now k)

claim_single :
    (worker lease now n : ℕ) (j : Job)
    → Waits n now j
    → claim_job no_locks worker lease now (j ∷ [])
      ≡ (some (claimed worker now lease j), claimed worker now lease j ∷ [])
unfolding candidate first_of_order
claim_single worker lease now n j (q, due, _, _) =
    claim_job_of_candidate no_locks worker lease now (j ∷ []) j (refl, tt) (ground (arith, q, due))
    ∙ ap (λ k. (some (claimed worker now lease j), k ∷ []))
        (if_true (j.id == j.id) (claimed worker now lease j) j (ground arith))

claim_ended :
    (worker lease now : ℕ) (j : Job)
    → is_terminal j.status ≡ true
    → claim_job no_locks worker lease now (j ∷ []) ≡ (none, j ∷ [])
unfolding candidate first_of_order is_terminal
claim_ended worker lease now j h =
    claim_job_of_none no_locks worker lease now (j ∷ []) (ground (arith, h))

-- The row of a claim after heartbeats up to the instant `ended`.
abbrev IsHeld : (lease ended : ℕ) → Job → Job → Type 0
IsHeld lease ended c k =
    (k.id ≡ c.id)
    × (k.status ≡ running)
    × (k.locked_by ≡ c.locked_by)
    × (k.attempts ≡ c.attempts)
    × (k.max_attempts ≡ c.max_attempts)
    × (is_some k.lease_expires_at ≡ true)
    × (lease_passed (ended + lease + 1) k.lease_expires_at ≡ true)

abbrev IsWithin : (ended : ℕ) → List Beat → Type 0
IsWithin ended beats = All (λ b. b.at ≤ ended) beats

beat_single :
    (worker lease ended : ℕ) (b : Beat) (c k : Job)
    → b.at ≤ ended
    → c.locked_by ≡ some worker
    → IsHeld lease ended c k
    → (k' : Job) × ((heartbeat c.id worker lease (some b.percent) (some b.message) b.at (k ∷ [])).1
        ≡ k' ∷ [])
      × IsHeld lease ended c k'
unfolding heartbeat
beat_single worker lease ended b c k early own (id, status, owner, a, m, held, passed) =
    let k' = heartbeat_write b.at lease (some b.percent) (some b.message) k in
    let found : heartbeat_where c.id worker k ≡ true = ground (arith, id, status, owner, own) in
    (
      k',
      ap (λ x. x ∷ []) (if_true (heartbeat_where c.id worker k) k' k found),
      (id, status, owner, a, m, refl, ground (arith, early)),
    )

beat_all-IsHeld :
    (worker lease ended : ℕ) (beats : List Beat) (c k : Job)
    → IsWithin ended beats
    → c.locked_by ≡ some worker
    → IsHeld lease ended c k
    → (k' : Job) × (beat_all worker lease c.id beats (k ∷ []) ≡ k' ∷ []) × IsHeld lease ended c k'
beat_all-IsHeld worker lease ended [] c k early own h = (k, refl, h)
beat_all-IsHeld worker lease ended (b ∷ beats) c k (e, es) own h =
    let (k1, row, h1) = beat_single worker lease ended b c k e own h in
    let (k2, row', h2) = beat_all-IsHeld worker lease ended beats c k1 es own h1 in
    (k2, ap (beat_all worker lease c.id beats) row ∙ row', h2)

-- What the answer makes of a claimed row.
abbrev Settled : (lease now : ℕ) → Job → Job → Type 0
Settled lease now c k =
    (is_terminal k.status ≡ true)
    ⊎ (((k.status ≡ queued)
          × (k.scheduled_at ≤ now + 900)
          × (k.attempts ≡ c.attempts)
          × (k.max_attempts ≡ c.max_attempts)
          × (k.attempts < k.max_attempts))
        ⊎ IsHeld lease now c k)

fail_single :
    (worker now : ℕ) (code text : String) (retryable : Bool) (c k : Job)
    → c.locked_by ≡ some worker
    → k.id ≡ c.id
    → fail_job (some c) c.id worker code text retryable now (k ∷ [])
      ≡ (should_retry retryable c, failure retryable now code text c k ∷ [])
unfolding fail_job
fail_single worker now code text retryable c k own same = ground (arith, own, same)

failure-Settled :
    (lease now : ℕ) (code text : String) (retryable : Bool) (c k : Job)
    → 1 ≤ c.attempts
    → k.attempts ≡ c.attempts
    → k.max_attempts ≡ c.max_attempts
    → Settled lease now c (failure retryable now code text c k)
unfolding is_terminal
failure-Settled lease now code text retryable c k tried a m =
    elim (Bool-cases (should_retry retryable c)) [
      | inl e ↦
          let bound = (backoff_bounds c.attempts c.attempts tried (omega arith)).2 in
          rw e (inr (inl (refl, omega (arith, bound), a, m, ground (arith, e, a, m))))
      | inr e ↦ rw e (inl refl)
    ]

complete_single :
    (worker now : ℕ) (c k : Job)
    → c.locked_by ≡ some worker
    → k.id ≡ c.id
    → k.locked_by ≡ c.locked_by
    → complete_job c.id worker now (k ∷ []) ≡ completed now k ∷ []
unfolding complete_job
complete_single worker now c k own same owner = ground (arith, own, same, owner)

abbrev Single : (lease now : ℕ) → Job → Table → Type 0
Single lease now c t = (k : Job) × (t ≡ k ∷ []) × Settled lease now c k

failed-Single :
    (worker lease now : ℕ) (code text : String) (retryable : Bool) (c k : Job) (db : Db)
    → db.jobs ≡ k ∷ []
    → c.locked_by ≡ some worker
    → 1 ≤ c.attempts
    → IsHeld lease now c k
    → Single lease now c (failed_with c worker code text retryable now db).1.jobs
failed-Single worker lease now code text retryable c k db h own tried (id, _, _, a, m, _, _) = (
  failure retryable now code text c k,
  ap (λ t. (fail_job (some c) c.id worker code text retryable now t).1) h
      ∙ ap (λ r. r.1) (fail_single worker now code text retryable c k own id),
  failure-Settled lease now code text retryable c k tried a m,
)

with_notice-Single :
    (lease now : ℕ) (ws : List JobWarning) (c k : Job) (db : Db)
    → db.jobs ≡ k ∷ []
    → is_terminal k.status ≡ true
    → Single lease now c (with_notice ws c db).jobs
with_notice-Single lease now [] c k db h ended = (k, h, inl ended)
with_notice-Single lease now (w ∷ ws) c k db h ended =
    let text = append "Concluido com " (append (decimal (length (w ∷ ws))) " aviso(s).") in
    let f : Job → Job = λ j. record j { progress_message = some (note text) } in
    (
      (if k.id == c.id then f k else k),
      ap (map_where (λ j. j.id == c.id) f) h,
      inl (ground (arith, ended)),
    )

settle-Single :
    (warning_text : JobWarning → String) (worker lease now : ℕ) (r : Result JobOutcome) (c k : Job)
    (db : Db)
    → db.jobs ≡ k ∷ []
    → c.locked_by ≡ some worker
    → 1 ≤ c.attempts
    → IsHeld lease now c k
    → Single lease now c (settle warning_text worker now c r db).1.jobs
unfolding settle is_terminal
settle-Single warning_text worker lease now (refused code message) c k db h own tried held =
    failed-Single worker lease now code message false c k db h own tried held
settle-Single warning_text worker lease now (crashed message) c k db h own tried held =
    failed-Single worker lease now "internal_error" message true c k db h own tried held
settle-Single warning_text worker lease now (unusable message) c k db h own tried held =
    (k, h, inr (inr held))
settle-Single warning_text worker lease now (returned o) c k db h own tried held =
    elim (Bool-cases (o.documents_created == 0)) [
      | inl e ↦ rw e (failed-Single worker lease now "no_documents" _ false c k db h own tried held)
      | inr e ↦ rw e (
          with_notice-Single lease now o.warnings c (completed now k)
            (record db { jobs = complete_job c.id worker now db.jobs })
            (ap (complete_job c.id worker now) h ∙ complete_single worker now c k own held.0 held.2)
            refl)
    ]

reap_ended :
    (now : ℕ) (k : Job)
    → same_status k.status running ≡ false
    → (reap_expired_leases now (k ∷ [])).1 ≡ k ∷ []
unfolding reap_expired_leases
reap_ended now k h = ground (arith, h)

-- The reaper takes the row of a worker that died: it waits again, or it has failed for good.
reap_held :
    (worker lease span now n : ℕ) (j k : Job)
    → Waits (suc n) now j
    → IsHeld lease (now + span) (claimed worker now lease j) k
    → Stands n (now + span + lease + 1000) (reap_expired_leases (now + span + lease + 1) (k ∷ [])).1
unfolding reap_expired_leases is_terminal
reap_held worker lease span now n j k (q, due, less, enough) (_, status, _, a, m, _, passed) =
    let at = now + span + lease + 1 in
    elim (Bool-cases (ltb k.attempts k.max_attempts)) [
      | inl e ↦ (
        requeued at k,
        ground (arith, e, status, passed),
        inr (refl, omega arith, ground (arith, e), omega (arith, a, m, enough)),
      )
      | inr e ↦ (abandoned at k, ground (arith, e, status, passed), inl refl)
    ]

-- The row after the reaper has run.
reaped :
    (worker lease span now n : ℕ) (j k : Job)
    → Waits (suc n) now j
    → Settled lease (now + span) (claimed worker now lease j) k
    → Stands n (now + span + lease + 1000) (reap_expired_leases (now + span + lease + 1) (k ∷ [])).1
unfolding is_terminal
reaped worker lease span now n j k w (inl ended) =
    (k, reap_ended (now + span + lease + 1) k (ground (arith, ended)), inl ended)
reaped worker lease span now n j k (_, _, _, enough) (inr (inl (q, due, same, same', less))) = (
  k,
  reap_ended (now + span + lease + 1) k (ground (arith, q)),
  inr (q, omega (arith, due), less, omega (arith, same, same', enough)),
)
reaped worker lease span now n j k w (inr (inr held)) = reap_held worker lease span now n j k w held

attempt-Waits :
    (warning_text : JobWarning → String) (worker lease span now n : ℕ) (beats : List Beat)
    (answer : Result JobOutcome) (j : Job) (db : Db)
    → IsWithin (now + span) beats
    → db.jobs ≡ j ∷ []
    → Waits (suc n) now j
    → Stands n
        (now + span + lease + 1000)
        (attempt warning_text worker lease span now (beats, answer) db).jobs
unfolding attempt
attempt-Waits warning_text worker lease span now n beats answer j db early h w =
    let c = claimed worker now lease j in
    let claim =
      ap (claim_job no_locks worker lease now) h ∙ claim_single worker lease now (suc n) j w in
    let (k, beaten, held) =
      beat_all-IsHeld worker lease (now + span) beats c c early refl
        (refl, refl, refl, refl, refl, refl, ground arith) in
    let (l, row, s) =
      settle-Single warning_text worker lease (now + span) answer c k
        (record db { jobs = beat_all worker lease c.id beats (c ∷ []) }) beaten refl (omega arith)
        held in
    subst
      (λ r.
        Stands n (now + span + lease + 1000)
          (reap_expired_leases (now + span + lease + 1)
            (settle_claimed warning_text worker lease (now + span) beats answer r.0
              (record db { jobs = r.1 })).jobs).1)
      (sym claim)
      (subst
        (λ t.
          Stands n (now + span + lease + 1000) (reap_expired_leases (now + span + lease + 1) t).1)
        (sym row) (reaped worker lease span now n j l w s))

attempt-ended :
    (warning_text : JobWarning → String) (worker lease span now n : ℕ) (beats : List Beat)
    (answer : Result JobOutcome) (j : Job) (db : Db)
    → db.jobs ≡ j ∷ []
    → is_terminal j.status ≡ true
    → Stands n
        (now + span + lease + 1000)
        (attempt warning_text worker lease span now (beats, answer) db).jobs
unfolding attempt is_terminal
attempt-ended warning_text worker lease span now n beats answer j db h ended =
    let claim = ap (claim_job no_locks worker lease now) h ∙ claim_ended worker lease now j ended in
    subst
      (λ r.
        Stands n (now + span + lease + 1000)
          (reap_expired_leases (now + span + lease + 1)
            (settle_claimed warning_text worker lease (now + span) beats answer r.0
              (record db { jobs = r.1 })).jobs).1)
      (sym claim) (j, reap_ended (now + span + lease + 1) j (ground (arith, ended)), inl ended)

-- Every heartbeat of every attempt comes before the attempt's end.
abbrev pub AreWithin : (lease span : ℕ) → (ℕ → List Beat × Result JobOutcome) → (n now : ℕ) → Type 0
AreWithin lease span answers zero now = Unit
AreWithin lease span answers (suc n) now =
    IsWithin (now + span) (answers n).0 × AreWithin lease span answers n (now + span + lease + 1000)

attempts-Stands :
    (warning_text : JobWarning → String) (worker lease span : ℕ)
    (answers : ℕ → List Beat × Result JobOutcome) (n now : ℕ) (db : Db)
    → AreWithin lease span answers n now
    → Stands n now db.jobs
    → (k : Job) × ((attempts warning_text worker lease span answers n now db).jobs ≡ k ∷ [])
      × (is_terminal k.status ≡ true)
unfolding attempts
attempts-Stands warning_text worker lease span answers zero now db w (k, row, inl ended) =
    (k, row, ended)
attempts-Stands warning_text worker lease span answers zero now db w
      (k, row, inr (q, due, less, enough)) =
    absurd (omega (arith, less, enough))
attempts-Stands warning_text worker lease span answers (suc n) now db (e, w) (k, row, inl ended) =
    attempts-Stands warning_text worker lease span answers n (now + span + lease + 1000)
      (attempt warning_text worker lease span now (answers n) db) w
      (attempt-ended warning_text worker lease span now n (answers n).0 (answers n).1 k db row
        ended)
attempts-Stands warning_text worker lease span answers (suc n) now db (e, w) (k, row, inr waits) =
    attempts-Stands warning_text worker lease span answers n (now + span + lease + 1000)
      (attempt warning_text worker lease span now (answers n) db) w
      (attempt-Waits warning_text worker lease span now n (answers n).0 (answers n).1 k db e row
        waits)

-- A queued job that is alone and due has ended, as succeeded, failed or cancelled, after as many
-- attempts as it has left, each of at most `span` seconds and followed by the reaper, whatever the
-- processing answers in each, with any heartbeats before it: successes, errors, crashes or the
-- death of the worker.
pub attempts_end :
    (warning_text : JobWarning → String) (worker lease span : ℕ)
    (answers : ℕ → List Beat × Result JobOutcome) (now : ℕ) (db : Db) (j : Job)
    → db.jobs ≡ j ∷ []
    → j.status ≡ queued
    → j.scheduled_at ≤ now
    → j.attempts < j.max_attempts
    → AreWithin lease span answers (j.max_attempts - j.attempts) now
    → (k : Job) × ((attempts warning_text worker lease span answers
          (j.max_attempts - j.attempts)
          now
          db).jobs
        ≡ k ∷ [])
      × (is_terminal k.status ≡ true)
attempts_end warning_text worker lease span answers now db j h q due less within =
    attempts-Stands warning_text worker lease span answers (j.max_attempts - j.attempts) now db
      within (j, h, inr (q, due, less, omega arith))

-- ===== src/Queue.antt =====
-- The job queue: packages/core/legacydoc_core/queue.py, over a table of jobs.
-- An `UPDATE … WHERE` is `update_where`, which returns the new table and `rowcount`. One call of an
-- operation reads the clock once: `now`. Workers are numbers.
pub mod Rows
pub mod Backoff
pub mod Claim
pub mod Invariant
pub mod Lease
pub mod History
pub mod Settled
pub mod Attempts
pub mod Machine
mod Tests
use legacy_doc.Common.{
  ℕ, ◌+◌, ◌-◌, ◌*◌, ◌^◌, min, Bool, true, false, not, ◌&&◌, ◌||◌, Option, none, some, List, [], ◌∷◌,
  ◌++◌, String, leb, ltb, ◌==◌, if◌then◌else◌, keep, any, count, holds, is_some, clip,
}
use legacy_doc.Jobs.{
  JobStatus, queued, running, succeeded, failed, cancelled, same_status, JobType, Params, Message,
  note, retry_in, Job, Table,
}

abbrev pub backoff_base_seconds : ℕ
backoff_base_seconds = 30

abbrev pub max_backoff_seconds : ℕ
max_backoff_seconds = 900

-- `UPDATE jobs SET … WHERE …`: the rows that pass the test are rewritten.
abbrev pub map_where : (Job → Bool) → (Job → Job) → Table → Table
map_where p f [] = []
map_where p f (j ∷ t) = (if p j then f j else j) ∷ map_where p f t

abbrev pub update_where : (Job → Bool) → (Job → Job) → Table → Table × ℕ
update_where p f t = (map_where p f t, count p t)

-- `session.get(Job, id)`
abbrev pub get_job : ℕ → Table → Option Job
get_job i [] = none
get_job i (j ∷ t) = if j.id == i then some j else get_job i t

-- The row that `enqueue` builds; `id` is the fresh `uuid4`.
abbrev pub new_job : ℕ → ℕ → ℕ → JobType → Params → ℕ → Option ℕ → ℕ → Option String → Job
new_job id now user_id job_type params priority project_id max_attempts webhook_url = record {
  id = id;
  user_id = user_id;
  project_id = project_id;
  job_type = job_type;
  status = queued;
  priority = priority;
  params = params;
  attempts = 0;
  max_attempts = max_attempts;
  scheduled_at = now;
  locked_by = none;
  lease_expires_at = none;
  progress_percent = 0;
  progress_message = none;
  started_at = none;
  finished_at = none;
  error_code = none;
  error_message = none;
  webhook_url = webhook_url;
  deleted_at = none;
  created_at = now;
}

-- `session.add` and `flush`: `none` is the violated primary key.
unfoldable pub enqueue :
    ℕ → ℕ → ℕ → JobType → Params → ℕ → Option ℕ → ℕ → Option String → Table → Option (Job × Table)
enqueue id now user_id job_type params priority project_id max_attempts webhook_url t =
    let job = new_job id now user_id job_type params priority project_id max_attempts webhook_url in
    elim (get_job id t) [ none ↦ some (job, t ++ job ∷ []) | some _ ↦ none ]

-- `WHERE status = 'queued' AND scheduled_at <= now()`, without the rows that other transactions
-- hold (`SKIP LOCKED`).
abbrev pub eligible : (ℕ → Bool) → ℕ → Job → Bool
eligible skip now j = same_status j.status queued && leb j.scheduled_at now && not (skip j.id)

-- `ORDER BY priority ASC, scheduled_at ASC`
abbrev pub precedes : Job → Job → Bool
precedes j k =
    ltb j.priority k.priority || (j.priority == k.priority && ltb j.scheduled_at k.scheduled_at)

abbrev pub pick : Job → Option Job → Option Job
pick j none = some j
pick j (some k) = if precedes k j then some k else some j

-- `ORDER BY … LIMIT 1`
unfoldable pub first_of_order : List Job → Option Job
first_of_order [] = none
first_of_order (j ∷ js) = pick j (first_of_order js)

unfoldable pub candidate : (ℕ → Bool) → ℕ → Table → Option Job
candidate skip now t = first_of_order (keep (eligible skip now) t)

-- The columns that a claim writes; `COALESCE(started_at, now())`.
abbrev pub claimed : ℕ → ℕ → ℕ → Job → Job
claimed worker now lease j = record j {
  status = running;
  locked_by = some worker;
  lease_expires_at = some (now + lease);
  attempts = j.attempts + 1;
  started_at = elim j.started_at [ none ↦ some now | some s ↦ some s ];
}

-- The Postgres branch of `claim_job`: one atomic statement.
unfoldable pub claim_job : (ℕ → Bool) → ℕ → ℕ → ℕ → Table → Option Job × Table
claim_job skip worker lease now t = elim (candidate skip now t) [
  | none ↦ (none, t)
  | some c ↦
      let t' = map_where (λ j. j.id == c.id) (claimed worker now lease) t in (get_job c.id t', t')
]

-- The other branch: a row is selected, and updated only if it is still queued when the update
-- runs, on a table that other workers may have changed in between.
abbrev pub claim_where : Job → Job → Bool
claim_where c j = j.id == c.id && same_status j.status queued

-- `started_at=candidate.started_at or _now()`: the candidate's value, not the row's.
abbrev pub claimed_selected : ℕ → ℕ → ℕ → Job → Job → Job
claimed_selected worker now lease c j = record j {
  status = running;
  locked_by = some worker;
  lease_expires_at = some (now + lease);
  attempts = j.attempts + 1;
  started_at = elim c.started_at [ none ↦ some now | some s ↦ some s ];
}

unfoldable pub claim_selected : ℕ → ℕ → ℕ → Job → Table → Option Job × Table
claim_selected worker lease now c t =
    let (t', rowcount) = update_where (claim_where c) (claimed_selected worker now lease c) t in
    if rowcount == 0 then (none, t) else (get_job c.id t', t')

-- `max(0, min(100, percent))`: percents are naturals, so the lower bound holds by itself.
abbrev pub heartbeat_write : ℕ → ℕ → Option ℕ → Option String → Job → Job
heartbeat_write now lease percent message j = record j {
  lease_expires_at = some (now + lease);
  progress_percent = elim percent [ none ↦ j.progress_percent | some p ↦ min 100 p ];
  progress_message = elim message [ none ↦ j.progress_message | some m ↦ some (note (clip 300 m)) ];
}

abbrev pub held_by : ℕ → ℕ → Job → Bool
held_by job_id worker j = j.id == job_id && holds j.locked_by worker

abbrev pub heartbeat_where : ℕ → ℕ → Job → Bool
heartbeat_where job_id worker j = held_by job_id worker j && same_status j.status running

unfoldable pub heartbeat : ℕ → ℕ → ℕ → Option ℕ → Option String → ℕ → Table → Bool × Table
heartbeat job_id worker lease percent message now t =
    let (t', rowcount) =
      update_where (heartbeat_where job_id worker) (heartbeat_write now lease percent message) t in
    (ltb 0 rowcount, t')

abbrev pub completed : ℕ → Job → Job
completed now j = record j {
  status = succeeded;
  finished_at = some now;
  progress_percent = 100;
  progress_message = some (note "Concluido.");
  lease_expires_at = none;
  error_code = none;
  error_message = none;
}

unfoldable pub complete_job : ℕ → ℕ → ℕ → Table → Table
complete_job job_id worker now t = map_where (held_by job_id worker) (completed now) t

-- `min(30 * 2 ** (attempts - 1), 900)`; at no attempt Python's `2 ** -1` is a half.
unfoldable pub backoff : ℕ → ℕ
backoff attempts =
    if attempts == 0
    then 15
    else min (backoff_base_seconds * 2 ^ (attempts - 1)) max_backoff_seconds

-- `session.get` in `fail_job`: a session that has read the row, as a worker's has, answers with
-- what it read then, `cached`; a session that has not reads the table.
abbrev pub session_row : Option Job → ℕ → Table → Option Job
session_row none job_id t = get_job job_id t
session_row (some job) job_id t = some job

abbrev pub should_retry : Bool → Job → Bool
should_retry retryable j = retryable && ltb j.attempts j.max_attempts

-- The fields that `fail_job` writes in both of its branches to the row `j`, decided on the row `seen`
-- of the session.
abbrev pub failure : Bool → ℕ → String → String → (seen j : Job) → Job
failure retryable now code message seen j =
    if should_retry retryable seen
    then record j {
      status = queued;
      scheduled_at = now + backoff seen.attempts;
      locked_by = none;
      lease_expires_at = none;
      progress_message = some (retry_in (backoff seen.attempts));
      error_code = some code;
      error_message = some (clip 4000 message);
    }
    else record j {
      status = failed;
      finished_at = some now;
      lease_expires_at = none;
      locked_by = none;
      error_code = some code;
      error_message = some (clip 4000 message);
    }

unfoldable pub fail_job : Option Job → ℕ → ℕ → String → String → Bool → ℕ → Table → Bool × Table
fail_job cached job_id worker code message retryable now t = elim (session_row cached job_id t) [
  | none ↦ (false, t)
  | some job ↦
      if holds job.locked_by worker
      then (
        should_retry retryable job,
        map_where (λ j. j.id == job_id) (failure retryable now code message job) t,
      )
      else (false, t)
]

-- `lease_expires_at IS NOT NULL AND lease_expires_at < now`
abbrev pub lease_passed : ℕ → Option ℕ → Bool
lease_passed now none = false
lease_passed now (some lease) = ltb lease now

abbrev pub expired : ℕ → Job → Bool
expired now j = same_status j.status running && lease_passed now j.lease_expires_at

abbrev pub requeued : ℕ → Job → Job
requeued now j = record j {
  status = queued;
  locked_by = none;
  lease_expires_at = none;
  scheduled_at = now;
  progress_message = some (note "Worker perdeu o lease; reenfileirado.");
}

abbrev pub abandoned : ℕ → Job → Job
abandoned now j = record j {
  status = failed;
  locked_by = none;
  lease_expires_at = none;
  finished_at = some now;
  error_code = some "lease_expired";
  error_message = some "O worker parou de responder e as tentativas acabaram.";
}

abbrev pub requeue_where : ℕ → Job → Bool
requeue_where now j = expired now j && ltb j.attempts j.max_attempts

abbrev pub abandon_where : ℕ → Job → Bool
abandon_where now j = expired now j && leb j.max_attempts j.attempts

unfoldable pub reap_expired_leases : ℕ → Table → ℕ × Table
reap_expired_leases now t =
    let (t', rowcount) = update_where (requeue_where now) (requeued now) t in
    (rowcount, map_where (abandon_where now) (abandoned now) t')

abbrev pub is_active : Job → Bool
is_active j = same_status j.status queued || same_status j.status running

unfoldable pub count_active_jobs_for_user : ℕ → Table → ℕ
count_active_jobs_for_user user_id t = count (λ j. j.user_id == user_id && is_active j) t

abbrev pub cancelled_at : ℕ → Job → Job
cancelled_at now j = record j {
  status = cancelled;
  finished_at = some now;
  progress_message = some (note "Cancelado pelo usuario.");
}

abbrev pub cancel_where : ℕ → Job → Bool
cancel_where job_id j = j.id == job_id && same_status j.status queued

unfoldable pub cancel_job : ℕ → ℕ → Table → Bool × Table
cancel_job job_id now t =
    let (t', rowcount) = update_where (cancel_where job_id) (cancelled_at now) t in
    (ltb 0 rowcount, t')

-- ===== src/Queue/Lease.antt =====
-- Who may touch a running job: its owner, until the lease passes and the reaper takes it back.
use legacy_doc.Common.{
  ℕ, ◌+◌, ◌≤◌, ◌<◌, ◌≡◌, refl, sym, ◌∙◌, ap, subst, inl, inr, Bool, true, false, ◌&&◌, Option, none,
  some, String, arith, ◌==◌, ltb, if◌then◌else◌, holds, count, Bool-cases, some_inj, ◌⊎◌, ==_iff,
  if_true,
}
use mathlib.Core.Option
use legacy_doc.Jobs.{same_status, running, queued, Job, Table}
use legacy_doc.Queue.{
  map_where, get_job, eligible, held_by, heartbeat_where, heartbeat_write, heartbeat, completed,
  complete_job, failure, fail_job, session_row, expired, requeue_where, requeued, abandon_where,
  abandoned, reap_expired_leases, cancel_where, cancelled_at, cancel_job,
}
use legacy_doc.Queue.Rows.{
  Distinct, OnlyAt, count-OnlyAt, map_where-none, get_job-map_where, get_job-map_id, get_job-OnlyAt,
  get_job-id, Distinct-map_where, All-get_job,
}
use legacy_doc.Queue.Invariant.{IsValid, IsRow, failure-KeepsId}
use legacy_doc.Queue.Backoff.{failure_waits, backoff_bounds}

abbrev pub no_locks : ℕ → Bool
no_locks i = false

held_by-OnlyAt : (i worker : ℕ) → OnlyAt i (held_by i worker)
held_by-OnlyAt i worker k e = ground (arith, e)

-- A heartbeat succeeds exactly when the job is running and the worker owns it; it then writes that
-- job's row, with the lease ending `lease` seconds from now, and no other row.
pub heartbeat_owner :
    (i k worker lease now : ℕ) (percent : Option ℕ) (message : Option String) (t : Table) {j : Job}
    → Distinct t
    → get_job i t ≡ some j
    → let alive = holds j.locked_by worker && same_status j.status running in
      let (answer, t') = heartbeat i worker lease percent message now t in
      (answer ≡ alive)
      × (get_job k t' ≡ (
          if k == i && alive
          then some (heartbeat_write now lease percent message j)
          else get_job k t))
unfolding heartbeat
heartbeat_owner i k worker lease now percent message t {j = j} d h =
    let only : OnlyAt i (heartbeat_where i worker) = λ l e. ground (arith, e) in
    let row = get_job-id i t h in
    (
      ground (arith, count-OnlyAt i (heartbeat_where i worker) t {j = j} only d h, row),
      get_job-OnlyAt i k (heartbeat_where i worker) (heartbeat_write now lease percent message) t
            (λ l. refl) only h
          ∙ ground (arith, row),
    )

-- A job that no worker owns takes neither heartbeats, which answer that the lease is lost, nor
-- completions: the table stays as it was under both.
pub unowned_untouched :
    (i worker lease now : ℕ) (percent : Option ℕ) (message : Option String) (t : Table) {j : Job}
    → Distinct t
    → get_job i t ≡ some j
    → j.locked_by ≡ none
    → (heartbeat i worker lease percent message now t ≡ (false, t))
      × (complete_job i worker now t ≡ t)
unfolding heartbeat complete_job
unowned_untouched i worker lease now percent message t {j = j} d h free =
    let no_beat : count (heartbeat_where i worker) t ≡ 0 =
      count-OnlyAt i (heartbeat_where i worker) t {j = j} (λ k e. ground (arith, e)) d h
      ∙ ground (arith, free) in
    let no_hold : count (held_by i worker) t ≡ 0 =
      count-OnlyAt i (held_by i worker) t {j = j} (held_by-OnlyAt i worker) d h
      ∙ ground (arith, free) in
    (
      rw (
        no_beat,
        map_where-none (heartbeat_where i worker) (heartbeat_write now lease percent message) t
            no_beat,
      ),
      map_where-none (held_by i worker) (completed now) t no_hold,
    )

-- What the reaper makes of each job: one whose lease has passed is requeued at once if it has an
-- attempt left and fails otherwise, free of its worker in both cases; any other job is unchanged.
pub reap_expired_leases_lem :
    (i now : ℕ) (t : Table) {j : Job}
    → get_job i t ≡ some j
    → get_job i (reap_expired_leases now t).1
      ≡ some (
          if expired now j
          then (if ltb j.attempts j.max_attempts then requeued now j else abandoned now j)
          else j)
unfolding reap_expired_leases
reap_expired_leases_lem i now t {j = j} h =
    get_job-map_where i (abandon_where now) (abandoned now)
      (map_where (requeue_where now) (requeued now) t) (λ k. refl)
    ∙ ground (arith, get_job-map_where i (requeue_where now) (requeued now) t (λ k. refl), h)

reap-Distinct : (now : ℕ) (t : Table) → Distinct t → Distinct (reap_expired_leases now t).1
unfolding reap_expired_leases
reap-Distinct now t d =
    Distinct-map_where (abandon_where now) (abandoned now)
      (map_where (requeue_where now) (requeued now) t) (λ k. refl)
      (Distinct-map_where (requeue_where now) (requeued now) t (λ k. refl) d)

-- Once the reaper has run, the worker whose lease passed has lost the job: its heartbeats answer so,
-- and neither they nor its completion changes the table.
pub reaped_locks_out :
    (i worker lease now later : ℕ) (percent : Option ℕ) (message : Option String) (t : Table)
    {j : Job}
    → Distinct t
    → get_job i t ≡ some j
    → expired now j ≡ true
    → let t' = (reap_expired_leases now t).1 in
      (heartbeat i worker lease percent message later t' ≡ (false, t'))
      × (complete_job i worker later t' ≡ t')
reaped_locks_out i worker lease now later percent message t {j = j} d h e =
    unowned_untouched i worker lease later percent message (reap_expired_leases now t).1
      (reap-Distinct now t d) (reap_expired_leases_lem i now t h) (ground (arith, e))

-- A failure is recorded if the row that the session has belongs to the worker, whatever the
-- table's row says by then: the call answers whether the job is tried again, which is so when the
-- failure is retryable and the session's row has an attempt left, and it writes that job's row and
-- no other.
pub fail_job_owner :
    (cached : Option Job) (i k worker now : ℕ) (code text : String) (retryable : Bool) (t : Table)
    (seen : Job) {j : Job}
    → session_row cached i t ≡ some seen
    → seen.locked_by ≡ some worker
    → get_job i t ≡ some j
    → let (answer, t') = fail_job cached i worker code text retryable now t in
      (answer ≡ (retryable && ltb seen.attempts seen.max_attempts))
      × (get_job k t'
          ≡ (if k == i then some (failure retryable now code text seen j) else get_job k t))
unfolding fail_job
fail_job_owner cached i k worker now code text retryable t seen {j = j} s held h =
    let row =
      get_job-map_id k i (failure retryable now code text seen) t
        (failure-KeepsId retryable now code text seen) in
    let mine : holds seen.locked_by worker ≡ true = ground (arith, held) in
    rw (s, fail_job) (rw mine (refl, row ∙ found_at (Bool-cases (k == i))))
  where
    found_at :
        ((k == i) ≡ true) ⊎ ((k == i) ≡ false)
        → (if k == i
            then Option.map (failure retryable now code text seen) (get_job k t)
            else get_job k t)
          ≡ (if k == i then some (failure retryable now code text seen j) else get_job k t)
    found_at (inl e) = rw e (
        ap (Option.map (failure retryable now code text seen))
          (ap (λ x. get_job x t) ((==_iff k i).0 e) ∙ h))
    found_at (inr e) = rw e

-- A retryable failure is recorded from the row that the worker's session has held since its claim,
-- if an attempt was left in that row: when the table's row has used up its attempts by then,
-- whatever its status and its worker, the job is queued once more, eligible after at most fifteen
-- minutes, and the table is not valid any more.
pub stale_failure_requeues :
    (i worker now : ℕ) (code text : String) (t : Table) (seen j : Job)
    → seen.locked_by ≡ some worker
    → 1 ≤ seen.attempts
    → seen.attempts < seen.max_attempts
    → get_job i t ≡ some j
    → j.attempts ≡ j.max_attempts
    → let (answer, t') = fail_job (some seen) i worker code text true now t in
      (answer ≡ true)
      × (k : Job) × (get_job i t' ≡ some k)
      × (eligible no_locks (now + 900) k ≡ true)
      × (k.attempts ≡ k.max_attempts)
      × ¬ IsValid t'
stale_failure_requeues i worker now code text t seen j held tried left h spent =
    let k = failure true now code text seen j in
    let (answer, row) =
      fail_job_owner (some seen) i i worker now code text true t seen refl held h in
    let found = row ∙ if_true (i == i) (some k) (get_job i t) (ground arith) in
    let bound = (backoff_bounds seen.attempts seen.attempts tried (omega arith)).2 in
    (
      answer ∙ ground (arith, left),
      k,
      found,
      ground (arith, left, bound),
      ground (arith, spent),
      λ v. absurd (ground (arith, All-get_job IsRow i _ v.0 found, left, spent)),
    )

-- A retryable failure that a worker reports from its own row leaves the job out of every claim
-- until thirty seconds have passed.
pub fail_job_waits :
    (i worker now later : ℕ) (skip : ℕ → Bool) (code text : String) (t : Table)
    (cached : Option Job) (seen : Job) {j k : Job}
    → session_row cached i t ≡ some seen
    → seen.locked_by ≡ some worker
    → 1 ≤ seen.attempts
    → get_job i t ≡ some j
    → later < now + 30
    → get_job i (fail_job cached i worker code text true now t).1 ≡ some k
    → eligible skip later k ≡ false
fail_job_waits i worker now later skip code text t cached seen {j = j} {k = k} s held a h wait
      found =
    let written = (fail_job_owner cached i i worker now code text true t seen s held h).1 in
    let same : failure true now code text seen j ≡ k =
      some_inj (sym (rw ((==_iff i i).1 refl) at written) ∙ found) in
    subst (λ x. eligible skip later x ≡ false) same
      (failure_waits skip now later code text seen j a wait)

-- A cancellation succeeds exactly when the job is still queued; it then writes that job's row, and no
-- other row.
pub cancel_job_queued :
    (i k now : ℕ) (t : Table) {j : Job}
    → Distinct t
    → get_job i t ≡ some j
    → let waiting = same_status j.status queued in
      let (answer, t') = cancel_job i now t in
      (answer ≡ waiting)
      × (get_job k t' ≡ (if k == i && waiting then some (cancelled_at now j) else get_job k t))
unfolding cancel_job
cancel_job_queued i k now t {j = j} d h =
    let only : OnlyAt i (cancel_where i) = λ l e. ground (arith, e) in
    let row = get_job-id i t h in
    (
      ground (arith, count-OnlyAt i (cancel_where i) t {j = j} only d h, row),
      get_job-OnlyAt i k (cancel_where i) (cancelled_at now) t (λ l. refl) only h
          ∙ ground (arith, row),
    )

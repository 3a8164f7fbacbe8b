-- ===== src/Worker/Settle.antt =====
-- How the end of an execution is written to the job and told to its webhook.
use legacy_doc.Common.{
  ℕ, ◌≡◌, refl, ap, ◌∙◌, true, false, not, Bool-cases, inl, inr, none, some, List, [], ◌∷◌, map,
  String, str_eq, any, keep, holds, if◌then◌else◌, if_true, append, decimal, length, ◌==◌, arith,
}
use legacy_doc.Plans.{PlanLimits, GenerationDepth}
use legacy_doc.Jobs.{note, Job, JobStatus, queued, running, succeeded, failed, is_terminal}
use legacy_doc.Queue.{get_job, map_where, complete_job, should_retry, held_by, completed}
use legacy_doc.Queue.Rows.{get_job-map_where, get_job-id}
use legacy_doc.Queue.Settled.{get_job-untouched}
use legacy_doc.Worker.Unique.{str_eq-sym}
use legacy_doc.Worker.{
  Db, JobWarning, JobOutcome, Result, returned, refused, crashed, unusable, Surroundings, progress,
}
use legacy_doc.Worker.Runner.{
  Notice, notify, settle, and_then, required, document_extracted, archive_at, process_archive,
}

-- The status in which an execution leaves the job of its worker: a failure that the program
-- foresees ends it, any other exception is retried while attempts are left, a job without a
-- document fails, and after a failed commit the job is still running, for the reaper to find.
abbrev pub status_after : Result JobOutcome → Job → JobStatus
status_after (returned o) j = if o.documents_created == 0 then failed else succeeded
status_after (refused code message) j = failed
status_after (crashed message) j = if should_retry true j then queued else failed
status_after (unusable message) j = running

-- The statuses that the webhook is told of.
abbrev pub told : Job → JobStatus → List JobStatus
told job status =
    map (λ n. n.status) (if is_terminal status then notify job status none none else [])

-- The job of `i`'s row after a call, its status, and the statuses told to the webhook.
abbrev Ends : Job → JobStatus → List Notice × Db → Type 0
Ends job status r =
    (k : Job) × (get_job job.id r.1.jobs ≡ some k)
    × (k.status ≡ status)
    × (map (λ n. n.status) r.0 ≡ told job status)

-- When a worker that does not own the job ends an execution that created documents with a warning,
-- the webhook is told of a success all the same, and the message of the job's row is overwritten,
-- the rest of the row being left to its owner.
pub settle_unowned :
    (warning_text : JobWarning → String) (worker now : ℕ) (job : Job) (o : JobOutcome) (db : Db)
    (w : JobWarning) (ws : List JobWarning) {j : Job}
    → get_job job.id db.jobs ≡ some j
    → holds j.locked_by worker ≡ false
    → (o.documents_created == 0) ≡ false
    → o.warnings ≡ w ∷ ws
    → let r = settle warning_text worker now job (returned o) db in
      (r.0 ≡ notify job succeeded none (some o.documents_created))
      × (text : String) × (get_job job.id r.1.jobs
          ≡ some (record j { progress_message = some (note text) }))
unfolding settle complete_job
settle_unowned warning_text worker now job o db w ws {j = j} h lost made warned =
    let text = append "Concluido com " (append (decimal (length (w ∷ ws))) " aviso(s).") in
    let f : Job → Job = λ k. record k { progress_message = some (note text) } in
    let kept : get_job job.id (map_where (held_by job.id worker) (completed now) db.jobs) ≡ some j =
      get_job-untouched job.id (held_by job.id worker) (completed now) db.jobs (λ k. refl) h
        (ground (arith, lost)) in
    let same = get_job-id job.id db.jobs h in
    rw made (
      refl,
      text,
      rw warned (
          get_job-map_where job.id (λ k. k.id == job.id) f
            (map_where (held_by job.id worker) (completed now) db.jobs) (λ k. refl)
          ∙ rw kept (ap some (if_true (j.id == job.id) (f j) j (ground (arith, same))))),
    )

any-unlinked :
    (path : String) (archives : List String)
    → any (str_eq path) (keep (λ p. not (str_eq p path)) archives) ≡ false
any-unlinked path [] = refl
any-unlinked path (p ∷ ps) = ground (arith, str_eq-sym p path, any-unlinked path ps)

archive_at-gone :
    (x : Surroundings) (worker : ℕ) (job : Job) (plan : PlanLimits) (depth : GenerationDepth)
    (path : String) (db : Db)
    → any (str_eq path) (archive_at x worker job plan depth path db).1.archives ≡ false
archive_at-gone x worker job plan depth path db =
    elim (Bool-cases (any (str_eq path) db.archives)) [
      | inl e ↦
          let started = (progress x worker 0 5 "Extraindo o arquivo enviado..." job.id db).1 in
          rw e
            (any-unlinked path (document_extracted x worker job plan depth path started).1.archives)
      | inr e ↦ rw e e
    ]

-- Once an archive job has been processed, however that ended, its archive is off the disk: unless
-- it is put there again, the next attempt at the job is refused as invalid.
pub archive_retry_refused :
    (x x' : Surroundings) (worker worker' : ℕ) (job : Job) (plan : PlanLimits)
    (depth : GenerationDepth) (path : String) (db db' : Db)
    → job.params.archive_path ≡ some path
    → db'.archives ≡ (process_archive x worker job plan depth db).1.archives
    → (process_archive x' worker' job plan depth db').0
      ≡ refused "validation_error" "O arquivo enviado nao esta mais disponivel. Envie novamente."
unfolding process_archive
archive_retry_refused x x' worker worker' job plan depth path db db' h same =
    let same' : db'.archives ≡ (archive_at x worker job plan depth path db).1.archives =
      same
      ∙ ap
          (λ o.
            (and_then (required "archive_path" o) (archive_at x worker job plan depth)
              db).1.archives)
          h in
    let gone : any (str_eq path) db'.archives ≡ false =
      ap (any (str_eq path)) same' ∙ archive_at-gone x worker job plan depth path db in
    ap (λ o. (and_then (required "archive_path" o) (archive_at x' worker' job plan depth) db').0) h
    ∙ rw gone refl

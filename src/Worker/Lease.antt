-- ===== src/Worker/Lease.antt =====
-- The worker and its lease: what a worker that lost a job may still do, and how the owner ends it.
use legacy_doc.Common.{
  ℕ, ◌+◌, ◌≡◌, refl, ap, ◌∙◌, Bool, false, ◌&&◌, Bool-cases, inl, inr, ◌⊎◌, Option, none, some,
  List, [], ◌∷◌, String, str_eq, any, count, length, holds, if◌then◌else◌, if_true, if_false, arith,
}
use legacy_doc.Plans.{GenerationDepth}
use legacy_doc.Jobs.{Job, running, same_status}
use legacy_doc.Queue.{get_job, heartbeat_where, heartbeat}
use legacy_doc.Queue.Rows.{Distinct, count-OnlyAt, map_where-none}
use legacy_doc.Languages.{LanguageInfo, detect_language}
use legacy_doc.Worker.{
  RepoFile, Db, JobOutcome, returned, Surroundings, progress, documented_paths, Loop, percent_of,
  documenting, go_on, break, run_pipeline, store_file, try_file, round_of, done, after_round,
  files_loop, document_files,
}

-- The worker may write to this row.
abbrev pub is_alive : ℕ → Job → Bool
is_alive worker j = holds j.locked_by worker && same_status j.status running

progress_lost :
    (x : Surroundings) (worker tick percent : ℕ) (message : String) (job_id : ℕ) (db : Db) {j : Job}
    → Distinct db.jobs
    → get_job job_id db.jobs ≡ some j
    → is_alive worker j ≡ false
    → progress x worker tick percent message job_id db ≡ (false, db)
unfolding progress heartbeat
progress_lost x worker tick percent message job_id db {j = j} d h lost =
    let none_left : count (heartbeat_where job_id worker) db.jobs ≡ 0 =
      count-OnlyAt job_id (heartbeat_where job_id worker) db.jobs (λ k e. ground (arith, e)) d h
      ∙ ground (arith, lost) in
    rw none_left (
      ap (λ t. (false, record db { jobs = t }))
        (map_where-none (heartbeat_where job_id worker) _ db.jobs none_left))

-- A round of a worker without the lease goes on or breaks off, and writes nothing.
round_of_lost :
    (x : Surroundings) (worker : ℕ) (job : Job) (depth : GenerationDepth) (already : List String)
    (index total : ℕ) (file : RepoFile) (o : Option LanguageInfo) (l : Loop) (db : Db) {j : Job}
    → Distinct db.jobs
    → get_job job.id db.jobs ≡ some j
    → is_alive worker j ≡ false
    → ((l' : Loop) × (round_of x worker job depth already index total file o l db ≡ (go_on l', db)))
      ⊎ (round_of x worker job depth already index total file o l db ≡ (break l, db))
unfolding try_file
round_of_lost x worker job depth already index total file none l db d h lost = inl (l, refl)
round_of_lost x worker job depth already index total file (some language) l db d h lost =
    let seen = any (str_eq file.path) already in
    let l' : Loop = record l { created = l.created + 1 } in
    let tried = try_file x worker job depth index total file language l db in
    elim (Bool-cases seen) [
      | inl e ↦ inl (l', if_true seen (go_on l', db) tried e)
      | inr e ↦ inr (
          if_false seen (go_on l', db) tried e
          ∙ ap
              (λ r.
                if r.0
                then store_file job depth file (run_pipeline x depth index file language) l
                    (x.others index r.1)
                else (break l, r.1))
              (progress_lost x worker index (percent_of index total) (documenting file index total)
                job.id db d h lost))
    ]

files_loop_lost :
    (x : Surroundings) (worker : ℕ) (job : Job) (depth : GenerationDepth) (already : List String)
    (index total : ℕ) (files : List RepoFile) (l : Loop) (db : Db) {j : Job}
    → Distinct db.jobs
    → get_job job.id db.jobs ≡ some j
    → is_alive worker j ≡ false
    → (l' : Loop) × (files_loop x worker job depth already index total files l db ≡ (done l', db))
unfolding files_loop
files_loop_lost x worker job depth already index total [] l db d h lost = (l, refl)
files_loop_lost x worker job depth already index total (file ∷ files) l db d h lost =
    let o = detect_language x.lower file.path in
    let rest = files_loop x worker job depth already (index + 1) total files in
    elim (round_of_lost x worker job depth already index total file o l db d h lost) [
      | inl (l1, e) ↦
          let (l2, q) =
            files_loop_lost x worker job depth already (index + 1) total files l1 db d h lost in
          (l2, ap (λ r. after_round r rest) e ∙ q)
      | inr e ↦ (l, ap (λ r. after_round r rest) e)
    ]

-- A worker that does not own the job, or whose job is no longer running, writes nothing when it
-- documents the files: no document, no heartbeat; it ends with an outcome, not with an exception.
pub document_files_lost :
    (x : Surroundings) (worker : ℕ) (job : Job) (depth : GenerationDepth) (files : List RepoFile)
    (db : Db) {j : Job}
    → Distinct db.jobs
    → get_job job.id db.jobs ≡ some j
    → is_alive worker j ≡ false
    → (o : JobOutcome) × (document_files x worker job depth files db ≡ (returned o, db))
unfolding document_files
document_files_lost x worker job depth files db d h lost =
    let (l, e) =
      files_loop_lost x worker job depth (documented_paths job.id db.documents) 1 (length files)
        files (record { created = 0; warnings = [] }) db d h lost in
    (record { documents_created = l.created; warnings = l.warnings }, e)

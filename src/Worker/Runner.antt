-- ===== src/Worker/Runner.antt =====
-- A job from the claim to its last row: `JobProcessor.process`
-- (apps/worker/legacydoc_worker/processor.py) and `Worker._execute` (runner.py). The clean-up of
-- temporary directories is left out.
use legacy_doc.Common.{
  ℕ, ltb, Bool, true, false, not, Option, none, some, List, [], ◌∷◌, ◌++◌, map, take, length,
  String, str_eq, append, decimal, join, keep, any, ◌==◌, if◌then◌else◌,
}
use legacy_doc.Plans.{PlanLimits, GenerationDepth, depth_text, get_plan, resolve_depth}
use legacy_doc.Jobs.{
  Job, JobType, document_repository, document_snippet, document_archive, JobStatus, succeeded,
  failed, note,
}
use legacy_doc.Queue.{get_job, map_where, fail_job, complete_job}
use legacy_doc.Languages.{LanguageInfo, detect_language}
use legacy_doc.Worker.{
  RepoFile, Db, JobWarning, unsafe_entry, plan_limit, scan_truncated, too_large, JobOutcome, Result,
  returned, refused, crashed, unusable, RepoScan, Surroundings, progress, document_files,
}

-- The rest of a call, unless it ended with an exception.
abbrev pub and_then :
    {A : Type 0} → Result A → (A → Db → Result JobOutcome × Db) → Db → Result JobOutcome × Db
and_then (returned a) rest db = rest a db
and_then (refused code message) rest db = (refused code message, db)
and_then (crashed message) rest db = (crashed message, db)
and_then (unusable message) rest db = (unusable message, db)

abbrev pub invalid : {A : Type 0} → String → Result A
invalid message = refused "validation_error" message

-- `params[key]`: the text of a `KeyError` is the key in quotes.
abbrev pub required : (key : String) → Option String → Result String
required key none = crashed (append "'" (append key "'"))
required key (some value) = returned value

abbrev snippet_of_language :
    Surroundings → (path content : String) → Option LanguageInfo → Result RepoFile
snippet_of_language x path content none = invalid (append "Extensao nao suportada: " path)
snippet_of_language x path content (some language) = returned (record {
  path = path;
  content = content;
  size_bytes = x.utf8_length content;
  language = language.name;
  sha256 = x.sha256 content;
})

abbrev pub bind {ℓ κ} : {A : Type ℓ} {B : Type κ} → Result A → (A → Result B) → Result B
bind (returned a) rest = rest a
bind (refused code message) rest = refused code message
bind (crashed message) rest = crashed message
bind (unusable message) rest = unusable message

unfoldable pub snippet_to_file : Surroundings → Job → Result RepoFile
snippet_to_file x job = bind (required "path" job.params.path) (λ path.
    bind (required "content" job.params.content)
      (λ content. snippet_of_language x path content (detect_language x.lower path)))

-- The files that the plan covers, and the warning on the others.
abbrev pub covered : PlanLimits → RepoScan → List RepoFile
covered plan scan = take plan.max_files_per_job scan.files

abbrev pub over_plan : PlanLimits → RepoScan → List JobWarning
over_plan plan scan =
    if ltb plan.max_files_per_job (length scan.files)
    then plan_limit (length scan.files) plan.max_files_per_job ∷ []
    else []

abbrev pub scan_warnings : PlanLimits → RepoScan → List JobWarning
scan_warnings plan scan =
    over_plan plan scan
    ++ (if scan.truncated then scan_truncated ∷ [] else [])
    ++ (if scan.skipped_too_large == 0 then [] else too_large scan.skipped_too_large ∷ [])

-- `outcome.warnings = warnings + outcome.warnings`
abbrev pub warned : List JobWarning → Result JobOutcome × Db → Result JobOutcome × Db
warned warnings (returned o, db) = (returned (record o { warnings = warnings ++ o.warnings }), db)
warned warnings (refused code message, db) = (refused code message, db)
warned warnings (crashed message, db) = (crashed message, db)
warned warnings (unusable message, db) = (unusable message, db)

-- `if not scan.files: raise ValidationError`
abbrev pub with_files :
    List RepoFile → (message : String) → Result JobOutcome × Db → Db → Result JobOutcome × Db
with_files [] message rest db = (invalid message, db)
with_files (file ∷ files) message rest db = rest

-- `archive_path.unlink(missing_ok=True)`, in a `finally`.
abbrev pub unlinked : String → Result JobOutcome × Db → Result JobOutcome × Db
unlinked archive_path (result, db) =
    (result, record db { archives = keep (λ path. not (str_eq path archive_path)) db.archives })

-- The `try` of `_document_archive`.
unfoldable pub document_extracted :
    Surroundings
    → (worker : ℕ) → Job
    → PlanLimits
    → GenerationDepth
    → (archive_path : String) → Db
    → Result JobOutcome × Db
document_extracted x worker job plan depth archive_path db =
    let directory = x.extraction_dir job.id in
    and_then (x.extract archive_path directory)
      (λ rejected db2.
        let (_, db3) = progress x worker 0 10 "Varrendo arquivos..." job.id db2 in
        and_then (x.scan directory [])
          (λ scan db4.
            with_files scan.files "Nenhum arquivo de codigo suportado no .zip."
              (warned (map unsafe_entry (take 10 rejected) ++ over_plan plan scan)
                (document_files x worker job depth (covered plan scan) db4))
              db4)
          db3)
      (x.others 0 db)

-- `_document_archive` on the path of the archive.
abbrev pub archive_at :
    Surroundings
    → (worker : ℕ) → Job
    → PlanLimits
    → GenerationDepth
    → (archive_path : String) → Db
    → Result JobOutcome × Db
archive_at x worker job plan depth archive_path db =
    let (_, started) = progress x worker 0 5 "Extraindo o arquivo enviado..." job.id db in
    if any (str_eq archive_path) db.archives
    then unlinked archive_path (document_extracted x worker job plan depth archive_path started)
    else (invalid "O arquivo enviado nao esta mais disponivel. Envie novamente.", db)

unfoldable pub process_archive :
    Surroundings → (worker : ℕ) → Job → PlanLimits → GenerationDepth → Db → Result JobOutcome × Db
process_archive x worker job plan depth db =
    and_then (required "archive_path" job.params.archive_path) (archive_at x worker job plan depth)
      db

abbrev pub paths_or_all : Option (List String) → List String
paths_or_all none = []
paths_or_all (some paths) = paths

-- `_document_repository`
unfoldable pub process_repository :
    Surroundings → (worker : ℕ) → Job → PlanLimits → GenerationDepth → Db → Result JobOutcome × Db
process_repository x worker job plan depth db =
    let (_, db1) = progress x worker 0 5 "Clonando repositorio..." job.id db in
    and_then (bind (required "repo_url" job.params.repo_url) (λ url. x.clone url job.params.branch))
      (λ directory db2.
        let (_, db3) = progress x worker 0 10 "Varrendo arquivos..." job.id db2 in
        and_then (x.scan directory (paths_or_all job.params.paths))
          (λ scan db4.
            with_files scan.files
              (append "Nenhum arquivo de codigo suportado encontrado. Arquivos vistos: "
                (append (decimal scan.total_files_seen) "."))
              (warned (scan_warnings plan scan)
                (document_files x worker job depth (covered plan scan) db4))
              db4)
          db3)
      (x.others 0 db1)

abbrev pub process_type :
    JobType
    → Surroundings
    → (worker : ℕ) → Job
    → PlanLimits
    → GenerationDepth
    → Db
    → Result JobOutcome × Db
process_type document_snippet x worker job plan depth db =
    and_then (snippet_to_file x job) (λ file. document_files x worker job depth (file ∷ [])) db
process_type document_archive x worker job plan depth db =
    process_archive x worker job plan depth db
process_type document_repository x worker job plan depth db =
    process_repository x worker job plan depth db

abbrev pub process_tier :
    Option String → Surroundings → (worker : ℕ) → Job → Db → Result JobOutcome × Db
process_tier none x worker job db = (invalid "Usuario do job nao existe mais.", db)
process_tier (some tier) x worker job db =
    let plan = get_plan tier in
    process_type job.job_type x worker job plan (resolve_depth (depth_text job.params.depth) plan)
      db

-- `JobProcessor.process`
unfoldable pub process : Surroundings → (worker : ℕ) → Job → Db → Result JobOutcome × Db
process x worker job db = process_tier (x.user_tier job.user_id) x worker job db

-- A call of the webhook.
pub record Notice : Type 0 where
  pub url : String
  pub job_id : ℕ
  pub status : JobStatus
  pub error : Option String
  pub documents : Option ℕ

-- `_notify`: nothing is sent without a URL, an empty one included.
abbrev pub notify : Job → JobStatus → (error : Option String) → (documents : Option ℕ) → List Notice
notify job status error documents = elim job.webhook_url [
  | none ↦ []
  | some url ↦
      if str_eq url String.[]
      then []
      else record {
        url = url;
        job_id = job.id;
        status = status;
        error = error;
        documents = documents;
      }
        ∷ []
]

abbrev pub failed_with :
    Job → (worker : ℕ) → (code message : String) → Bool → (now : ℕ) → Db → Bool × Db
failed_with job worker code message retryable now db =
    let (requeued, jobs) = fail_job (some job) job.id worker code message retryable now db.jobs in
    (requeued, record db { jobs = jobs })

abbrev or_text : String → String → String
or_text text default = if str_eq text String.[] then default else text

-- `job.progress_message = …`, which the session writes to the row of the job's identifier.
abbrev pub set_message : (job_id : ℕ) → String → Db → Db
set_message job_id text db = record db {
  jobs =
      map_where (λ j. j.id == job_id) (λ j. record j { progress_message = some (note text) })
        db.jobs;
}

abbrev pub with_notice : List JobWarning → Job → Db → Db
with_notice [] job db = db
with_notice (w ∷ ws) job db =
    set_message job.id (append "Concluido com " (append (decimal (length (w ∷ ws))) " aviso(s)."))
      db

-- The end of `_execute`: how the processing ended is written to the job, and its webhook called.
-- `warning_text` renders a warning; `now` is the instant of the write.
unfoldable pub settle :
    (JobWarning → String) → (worker now : ℕ) → Job → Result JobOutcome → Db → List Notice × Db
settle warning_text worker now job (refused code message) db =
    let (_, db') = failed_with job worker code message false now db in
    (notify job failed (some message) none, db')
settle warning_text worker now job (crashed message) db =
    let (requeued, db') = failed_with job worker "internal_error" message true now db in
    ((if requeued then [] else notify job failed (some message) none), db')
settle warning_text worker now job (unusable message) db = ([], db)
settle warning_text worker now job (returned o) db =
    if o.documents_created == 0
    then (let text = join "; " (map warning_text (take 5 o.warnings)) in
        let (_, db') =
          failed_with job worker "no_documents" (or_text text "Nenhum documento foi gerado.") false
            now db in
        (notify job failed (some "Nenhum documento gerado.") none, db'))
    else (
      notify job succeeded none (some o.documents_created),
      with_notice o.warnings job (record db { jobs = complete_job job.id worker now db.jobs }),
    )

abbrev pub settle_processed :
    (JobWarning → String) → (worker now : ℕ) → Job → Result JobOutcome × Db → List Notice × Db
settle_processed warning_text worker now job (result, db) =
    settle warning_text worker now job result db

abbrev pub execute_row :
    Surroundings → (JobWarning → String) → (worker now : ℕ) → Option Job → Db → List Notice × Db
execute_row x warning_text worker now none db = ([], db)
execute_row x warning_text worker now (some job) db =
    settle_processed warning_text worker now job (process x worker job db)

-- `_execute`
unfoldable pub execute :
    Surroundings → (JobWarning → String) → (worker now job_id : ℕ) → Db → List Notice × Db
execute x warning_text worker now job_id db =
    execute_row x warning_text worker now (get_job job_id db.jobs) db

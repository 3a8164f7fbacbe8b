-- ===== src/Worker.antt =====
-- A worker's loop over the files of a job: apps/worker/legacydoc_worker/processor.py. The symbol
-- index, the context and the usage records, which only feed the pipeline, are left out, and a `%`
-- of the progress is computed with integers.
pub mod Runner
pub mod Files
pub mod Unique
pub mod Lease
pub mod Settle
pub mod Rounds
mod Tests
use legacy_doc.Common.{
  ℕ, ◌+◌, ◌-◌, ◌*◌, ◌/◌, max, Bool, true, false, ◌&&◌, Option, none, some, List, [], ◌∷◌, ◌++◌, map,
  String, str_eq, ◌==◌, if◌then◌else◌, any, keep, length, append, decimal,
}
use Prim.Native.Char.{Char}
use legacy_doc.Plans.{GenerationDepth}
use legacy_doc.Jobs.{Job, Table}
use legacy_doc.Queue.{heartbeat}
use legacy_doc.Languages.{LanguageInfo, detect_language}
use legacy_doc.Chunking.{ParsedFile, build_chunks}
use legacy_doc.Domain.{SymbolDoc, FindingDraft}
use legacy_doc.Pipeline.Run.{Agents, PipelineOptions, PipelineResult, Warning, run}

pub record RepoFile : Type 0 where
  pub path : String
  pub content : String
  pub size_bytes : ℕ
  pub language : String
  pub sha256 : String

-- A row of `documents` with its findings.
pub record Document : Type 0 where
  pub job_id : ℕ
  pub project_id : Option ℕ
  pub user_id : ℕ
  pub path : String
  pub language : String
  pub content_sha256 : String
  pub depth : GenerationDepth
  pub summary : Option String
  pub symbols : List SymbolDoc
  pub findings : List FindingDraft

-- The tables that a job writes, and the uploaded archives on the disk.
pub record Db : Type 0 where
  pub jobs : Table
  pub documents : List Document
  pub archives : List String

-- The warnings of a job.
pub data JobWarning : Type 0 where
  about_file : String → Warning → JobWarning
  file_failed : (path message : String) → JobWarning
  unsafe_entry : String → JobWarning
  plan_limit : (found covered : ℕ) → JobWarning
  scan_truncated : JobWarning
  too_large : ℕ → JobWarning

pub record JobOutcome : Type 0 where
  pub documents_created : ℕ
  pub warnings : List JobWarning

-- How a call ends: with a value, a `LegacyDocError` with its code and message, another exception, or
-- with a `commit` that fails, after which the session refuses statements until it is rolled back.
pub data Result {ℓ} (A : Type ℓ) : Type ℓ where
  returned : A → Result A
  refused : (code message : String) → Result A
  crashed unusable : String → Result A

pub record RepoScan : Type 0 where
  pub files : List RepoFile
  pub total_files_seen : ℕ
  pub skipped_too_large : ℕ
  pub skipped_binary : ℕ
  pub truncated : Bool

-- What the worker does not decide. A tick counts the files of a job from 1; at tick 0 the source is
-- fetched. `others` is what other transactions do to the database while the pipeline runs on a file
-- or the source is fetched, and `crash` an exception of the pipeline other than a `LegacyDocError`.
pub record Surroundings : Type 0 where
  pub lower : String → String
  pub is_space : Char → Bool
  pub parse : RepoFile → LanguageInfo → ParsedFile
  pub agents : ℕ → RepoFile → Agents
  pub crash : ℕ → RepoFile → Option String
  pub others : ℕ → Db → Db
  pub clock : ℕ → ℕ
  pub lease_seconds : ℕ
  pub sha256 : String → String
  pub utf8_length : String → ℕ
  pub user_tier : ℕ → Option String
  pub extraction_dir : (job_id : ℕ) → String
  pub extract : (archive_path directory : String) → Result (List String)
  pub clone : (repo_url : String) (branch : Option String) → Result String
  pub scan : (directory : String) (only_paths : List String) → Result RepoScan

abbrev pub max_tokens_per_chunk : ℕ
max_tokens_per_chunk = 6000

abbrev pub options_of : GenerationDepth → PipelineOptions
options_of depth = record { max_review_rounds = 1; generate_summary = true; depth = depth }

abbrev pub answer_of : Option PipelineResult → Result PipelineResult
answer_of none =
    refused "provider_error"
      "A IA nao respondeu para nenhum bloco deste arquivo. Tente de novo em alguns minutos."
answer_of (some r) = returned r

abbrev pub unless_crash : Option String → Result PipelineResult → Result PipelineResult
unless_crash none answer = answer
unless_crash (some message) answer = crashed message

-- `pipeline.run` on a file.
unfoldable pub run_pipeline :
    Surroundings → GenerationDepth → (index : ℕ) → RepoFile → LanguageInfo → Result PipelineResult
run_pipeline x depth index file language =
    let parsed = x.parse file language in
    unless_crash (x.crash index file) (
      answer_of (
        run (x.agents index file) (options_of depth) language parsed
          (build_chunks x.is_space parsed max_tokens_per_chunk true)))

-- `_progress`: the heartbeat, committed.
unfoldable pub progress :
    Surroundings → (worker tick percent : ℕ) → String → (job_id : ℕ) → Db → Bool × Db
progress x worker tick percent message job_id db =
    let (alive, jobs) =
      heartbeat job_id worker x.lease_seconds (some percent) (some message) (x.clock tick)
        db.jobs in
    (alive, record db { jobs = jobs })

abbrev pub of_job : ℕ → Document → Bool
of_job job_id d = d.job_id == job_id

-- The unique constraint on `(job_id, path)`.
abbrev pub has_document : ℕ → String → List Document → Bool
has_document job_id path documents = any (λ d. of_job job_id d && str_eq d.path path) documents

-- `_documented_paths`
unfoldable pub documented_paths : ℕ → List Document → List String
documented_paths job_id documents = map (λ d. d.path) (keep (of_job job_id) documents)

abbrev summary_or_none : String → Option String
summary_or_none summary = if str_eq summary String.[] then none else some summary

-- The row that `_persist` adds.
abbrev pub document_of : Job → GenerationDepth → RepoFile → PipelineResult → Document
document_of job depth file r = record {
  job_id = job.id;
  project_id = job.project_id;
  user_id = job.user_id;
  path = file.path;
  language = file.language;
  content_sha256 = file.sha256;
  depth = depth;
  summary = summary_or_none r.documentation.summary;
  symbols = r.documentation.symbols;
  findings = r.documentation.findings;
}

-- The variables of the loop of `_document_files`.
pub record Loop : Type 0 where
  pub created : ℕ
  pub warnings : List JobWarning

abbrev pub percent_of : (index total : ℕ) → ℕ
percent_of index total = 15 + (index - 1) * 80 / max total 1

-- What one file does to the loop: it goes on, or ends with the outcome so far or with an exception.
pub data Next : Type 0 where
  go_on break : Loop → Next
  raise fail_commit : String → Next

-- The rest of a file's round, once the pipeline has answered: `_persist` and `commit`.
unfoldable pub store_file :
    Job → GenerationDepth → RepoFile → Result PipelineResult → Loop → Db → Next × Db
store_file job depth file (refused code message) l db =
    (go_on (record l { warnings = l.warnings ++ file_failed file.path message ∷ [] }), db)
store_file job depth file (crashed message) l db = (raise message, db)
store_file job depth file (unusable message) l db = (fail_commit message, db)
store_file job depth file (returned r) l db =
    if has_document job.id file.path db.documents
    then (fail_commit "UNIQUE constraint failed: documents.job_id, documents.path", db)
    else (
      go_on (record {
        created = l.created + 1;
        warnings = l.warnings ++ map (about_file file.path) r.warnings;
      }),
      record db { documents = db.documents ++ document_of job depth file r ∷ [] },
    )

-- `f"Documentando {repo_file.path} ({index}/{total})"`
abbrev pub documenting : RepoFile → (index total : ℕ) → String
documenting file index total = append "Documentando " (
    append file.path
      (append " (" (append (decimal index) (append "/" (append (decimal total) ")")))))

-- A file that is still to be documented: the heartbeat, and the pipeline if the lease is alive.
unfoldable pub try_file :
    Surroundings
    → (worker : ℕ) → Job
    → GenerationDepth
    → (index total : ℕ) → RepoFile
    → LanguageInfo
    → Loop
    → Db
    → Next × Db
try_file x worker job depth index total file language l db =
    let (alive, db') =
      progress x worker index (percent_of index total) (documenting file index total) job.id db in
    if alive
    then store_file job depth file (run_pipeline x depth index file language) l (x.others index db')
    else (break l, db')

abbrev pub round_of :
    Surroundings
    → (worker : ℕ) → Job
    → GenerationDepth
    → List String
    → (index total : ℕ) → RepoFile
    → Option LanguageInfo
    → Loop
    → Db
    → Next × Db
round_of x worker job depth already index total file none l db = (go_on l, db)
round_of x worker job depth already index total file (some language) l db =
    if any (str_eq file.path) already
    then (go_on (record l { created = l.created + 1 }), db)
    else try_file x worker job depth index total file language l db

abbrev pub done : Loop → Result JobOutcome
done l = returned (record { documents_created = l.created; warnings = l.warnings })

abbrev pub after_round : Next × Db → (Loop → Db → Result JobOutcome × Db) → Result JobOutcome × Db
after_round (go_on l, db) rest = rest l db
after_round (break l, db) rest = (done l, db)
after_round (raise message, db) rest = (crashed message, db)
after_round (fail_commit message, db) rest = (unusable message, db)

unfoldable pub files_loop :
    Surroundings
    → (worker : ℕ) → Job
    → GenerationDepth
    → List String
    → (index total : ℕ) → List RepoFile
    → Loop
    → Db
    → Result JobOutcome × Db
files_loop x worker job depth already index total [] l db = (done l, db)
files_loop x worker job depth already index total (file ∷ files) l db =
    after_round
      (round_of x worker job depth already index total file (detect_language x.lower file.path) l
        db)
      (files_loop x worker job depth already (index + 1) total files)

-- `_document_files`
unfoldable pub document_files :
    Surroundings
    → (worker : ℕ) → Job
    → GenerationDepth
    → List RepoFile
    → Db
    → Result JobOutcome × Db
document_files x worker job depth files db =
    files_loop x worker job depth (documented_paths job.id db.documents) 1 (length files) files
      (record { created = 0; warnings = [] }) db

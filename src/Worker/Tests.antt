-- ===== src/Worker/Tests.antt =====
-- A snippet's job and an archive's job, a worker, and the properties at them.
use legacy_doc.Common.{
  ℕ, ◌+◌, ◌≡◌, ◌≢◌, refl, true, false, some, none, List, [], ◌∷◌, map, String, arith, if◌then◌else◌,
  ◌==◌, split, chars,
}
use Prim.Native.Char.{code}
use legacy_doc.Plans.{GenerationDepth, free_plan, get_plan}
use legacy_doc.Jobs.{
  Job, queued, running, succeeded, is_terminal, document_snippet, document_archive, Params,
  no_params, note,
}
use legacy_doc.Queue.{get_job}
use legacy_doc.Languages.{detect_language, suffix, with_slashes}
use legacy_doc.Chunking.{SymbolSpan}
use legacy_doc.Pipeline.Run.{Agents, unavailable}
use legacy_doc.Worker.{
  RepoFile, Document, Db, JobWarning, scan_truncated, JobOutcome, Result, returned, refused,
  crashed, unusable, Surroundings, documented_paths, document_files,
}
use legacy_doc.Worker.Runner.{Notice, notify, settle, process_archive, execute}
use legacy_doc.Worker.Files.{document_files_resumed}
use legacy_doc.Worker.Unique.{document_files_commits}
use legacy_doc.Worker.Lease.{document_files_lost}
use legacy_doc.Worker.Settle.{settle_unowned, archive_retry_refused}
use legacy_doc.Worker.Rounds.{Beat, attempts, attempts_end}

abbrev span : SymbolSpan
span = record {
  name = "f";
  kind = "function";
  source = "def f(): pass";
  line_start = 1;
  line_end = 1;
  byte_start = 0;
  byte_end = 13;
  parent = none;
  signature = "def f()";
  complexity = 1;
}

abbrev silent : Agents
silent = record {
  fold = λ title. title;
  writer = λ chunk. some [];
  improver = λ chunk. none;
  verifier = λ round symbols. unavailable "down";
  rewriter = λ round symbol. none;
  ends_at = λ round symbol. 0;
  summarizer = λ symbols. none;
}

abbrev surroundings : Surroundings
surroundings = record {
  lower = λ text. text;
  is_space = λ c. code c == 32;
  parse = λ file language. record {
    path = file.path;
    language = language.name;
    source = file.content;
    symbols = span ∷ [];
    parse_failed = false;
  };
  agents = λ index file. silent;
  crash = λ index file. none;
  others = λ n db. db;
  clock = λ tick. 100 + tick;
  lease_seconds = 60;
  sha256 = λ text. text;
  utf8_length = chars;
  user_tier = λ id. some "free";
  extraction_dir = λ id. "archive";
  extract = λ path directory. returned [];
  clone = λ url branch. refused "validation_error" "no clone";
  scan = λ directory paths. returned (record {
    files = [];
    total_files_seen = 0;
    skipped_too_large = 0;
    skipped_binary = 0;
    truncated = false;
  });
}

abbrev snippet_params : Params
snippet_params = record no_params { path = some "a.py"; content = some "def f(): pass" }

-- A job that worker 7 runs.
abbrev job : Job
job = record {
  id = 1;
  user_id = 2;
  project_id = none;
  job_type = document_snippet;
  status = running;
  priority = 100;
  params = snippet_params;
  attempts = 1;
  max_attempts = 3;
  scheduled_at = 0;
  locked_by = some 7;
  lease_expires_at = some 160;
  progress_percent = 0;
  progress_message = none;
  started_at = some 100;
  finished_at = none;
  error_code = none;
  error_message = none;
  webhook_url = some "https://example.org";
  deleted_at = none;
  created_at = 0;
}

abbrev db : Db
db = record { jobs = job ∷ []; documents = []; archives = "upload.zip" ∷ [] }

abbrev file : String → RepoFile
file path = record {
  path = path;
  content = "def f(): pass";
  size_bytes = 13;
  language = "python";
  sha256 = "";
}

abbrev document : String → Document
document path = record {
  job_id = 1;
  project_id = none;
  user_id = 2;
  path = path;
  language = "python";
  content_sha256 = "";
  depth = GenerationDepth.basic;
  summary = none;
  symbols = [];
  findings = [];
}

abbrev resumed : Db
resumed = record db { documents = document "a.py" ∷ [] }

abbrev no_text : JobWarning → String
no_text w = ""

execute_done : map (λ n. n.status) (execute surroundings no_text 7 200 1 resumed).0 ≡ succeeded ∷ []
unfolding execute legacy_doc.Worker.Runner.process legacy_doc.Worker.Runner.snippet_to_file
    document_files legacy_doc.Worker.files_loop documented_paths detect_language suffix with_slashes
    split settle get_plan
execute_done = refl

document_files_resumed_example :
    document_files surroundings 7 job GenerationDepth.basic
      (file "a.py" ∷ file "notes.txt" ∷ [])
      resumed
    ≡ (returned (record { documents_created = 1; warnings = [] }), resumed)
unfolding detect_language suffix with_slashes split documented_paths
document_files_resumed_example =
    document_files_resumed surroundings 7 job GenerationDepth.basic
      (file "a.py" ∷ file "notes.txt" ∷ []) resumed (refl, (refl, tt))

document_files_commits_example :
    (document_files surroundings 7 job GenerationDepth.basic
      (file "a.py" ∷ file "b.py" ∷ [])
      resumed).0
    ≢ unusable "down"
document_files_commits_example =
    document_files_commits surroundings 7 job GenerationDepth.basic (file "a.py" ∷ file "b.py" ∷ [])
      resumed (λ n d path. refl) ((refl, tt), (tt, tt)) "down"

-- Worker 8 had the job before worker 7.
document_files_lost_example :
    (o : JobOutcome) × (document_files surroundings 8 job GenerationDepth.basic
        (file "b.py" ∷ [])
        db
      ≡ (returned o, db))
document_files_lost_example =
    document_files_lost surroundings 8 job GenerationDepth.basic (file "b.py" ∷ []) db (refl, tt)
      refl refl

abbrev made : JobOutcome
made = record { documents_created = 1; warnings = scan_truncated ∷ [] }

settle_unowned_example :
    let r = settle no_text 8 200 job (returned made) db in
    (r.0 ≡ notify job succeeded none (some 1))
    × (text : String) × (get_job 1 r.1.jobs
        ≡ some (record job { progress_message = some (note text) }))
settle_unowned_example =
    settle_unowned no_text 8 200 job made db scan_truncated [] refl refl refl refl

abbrev archive_job : Job
archive_job = record job {
  job_type = document_archive;
  params = record no_params { archive_path = some "upload.zip" };
}

archive_retry_refused_example :
    (process_archive surroundings 9 archive_job free_plan GenerationDepth.basic
      (process_archive surroundings 7 archive_job free_plan GenerationDepth.basic db).1).0
    ≡ refused "validation_error" "O arquivo enviado nao esta mais disponivel. Envie novamente."
archive_retry_refused_example =
    archive_retry_refused surroundings surroundings 7 9 archive_job free_plan GenerationDepth.basic
      "upload.zip" db
      (process_archive surroundings 7 archive_job free_plan GenerationDepth.basic db).1 refl refl

abbrev waiting : Job
waiting = record job { status = queued; attempts = 0; locked_by = none; lease_expires_at = none }

-- The worker reports some progress and dies, and the last time the processing is stopped.
abbrev dying : ℕ → List Beat × Result JobOutcome
dying n = (
  record { at = 100; percent = 20; message = "Clonando..." } ∷ [],
  (if n == 0 then crashed "timeout" else unusable "killed"),
)

attempts_end_example :
    (k : Job) × ((attempts no_text 7 60 200 dying 3 100 (record db { jobs = waiting ∷ [] })).jobs
      ≡ k ∷ [])
    × (is_terminal k.status ≡ true)
attempts_end_example =
    attempts_end no_text 7 60 200 dying 100 (record db { jobs = waiting ∷ [] }) waiting refl refl
      (omega arith) (omega arith) ((omega arith, tt), ((omega arith, tt), ((omega arith, tt), tt)))

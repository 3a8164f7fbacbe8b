-- ===== src/Jobs.antt =====
-- The rows of the table `jobs`: packages/core/legacydoc_core/models.py.
-- Identifiers (UUIDs) and instants (seconds) are numbers; texts are native strings. `updated_at`,
-- which the database writes and no code reads, is left out.
use legacy_doc.Common.{none, ℕ, Bool, true, false, Option, List, String}
use legacy_doc.Plans.{GenerationDepth}

pub data JobStatus : Type 0 where
  queued running succeeded failed cancelled : JobStatus

-- `status == JobStatus.X`, as SQL and Python compare it.
abbrev pub same_status : JobStatus → JobStatus → Bool
same_status queued queued = true
same_status running running = true
same_status succeeded succeeded = true
same_status failed failed = true
same_status cancelled cancelled = true
same_status _ _ = false

unfoldable pub is_terminal : JobStatus → Bool
is_terminal queued = false
is_terminal running = false
is_terminal _ = true

pub data JobType : Type 0 where
  document_repository document_snippet document_archive : JobType

-- The keys of the dictionary `params` that the program writes, each of them optional.
pub record Params : Type 0 where
  pub output_language : Option String
  pub depth : Option GenerationDepth
  pub repo_url : Option String
  pub branch : Option String
  pub paths : Option (List String)
  pub max_files : Option ℕ
  pub path : Option String
  pub content : Option String
  pub archive_path : Option String
  pub original_filename : Option String

-- The empty dictionary.
abbrev pub no_params : Params
no_params = record {
  output_language = none;
  depth = none;
  repo_url = none;
  branch = none;
  paths = none;
  max_files = none;
  path = none;
  content = none;
  archive_path = none;
  original_filename = none;
}

-- What `progress_message` shows: a text, or the notice of a retry with its delay in seconds.
pub data Message : Type 0 where
  note : String → Message
  retry_in : ℕ → Message

pub record Job : Type 0 where
  pub id : ℕ
  pub user_id : ℕ
  pub project_id : Option ℕ
  pub job_type : JobType
  pub status : JobStatus
  pub priority : ℕ
  pub params : Params
  pub attempts : ℕ
  pub max_attempts : ℕ
  pub scheduled_at : ℕ
  pub locked_by : Option ℕ
  pub lease_expires_at : Option ℕ
  pub progress_percent : ℕ
  pub progress_message : Option Message
  pub started_at : Option ℕ
  pub finished_at : Option ℕ
  pub error_code : Option String
  pub error_message : Option String
  pub webhook_url : Option String
  pub deleted_at : Option ℕ
  pub created_at : ℕ

abbrev pub Table : Type 0
Table = List Job

-- ===== src/JobRoutes.antt =====
-- The routes of a job: apps/api/legacydoc_api/routers/jobs.py, with `validate_repo_url` of
-- packages/core/legacydoc_core/repository.py. A request is one transaction: a refusal, or an
-- exception, leaves the store as it was. `parse_url` is `urlparse`. The upload of an archive and
-- the list of jobs are left out.
pub mod Tenancy
pub mod History
pub mod Creation
mod Tests
use legacy_doc.Common.{
  ℕ, Bool, true, false, not, ◌&&◌, ◌||◌, ltb, ◌==◌, Option, none, some, is_some, List, [], ◌∷◌, map,
  keep, any, count, length, String, str_eq, if◌then◌else◌,
}
use Prim.Native.Char.{Char, code}
use legacy_doc.Plans.{
  PlanLimits, GenerationDepth, Feature, webhooks, allows, depth_text, resolve_depth,
}
use legacy_doc.Jobs.{
  Job, JobType, document_repository, document_snippet, JobStatus, is_terminal, Message, Params,
  no_params, Table,
}
use legacy_doc.Queue.{get_job, map_where, enqueue, cancel_job}
use legacy_doc.Quota.{QuotaAnswer, granted, quota_reached, too_many_active, enforce_job_quota}
use legacy_doc.Billing.{Moment}
use legacy_doc.Billing.Settlement.{
  Ledger, BudgetAnswer, within_budget, global_budget_spent, credits_spent, enforce_cost_budget,
}
use legacy_doc.Accounts.Access.{Principal}
use legacy_doc.Languages.{detect_language}
use legacy_doc.Worker.{Document, of_job}

-- A project and its owner.
pub record Project : Type 0 where
  pub id : ℕ
  pub owner_id : ℕ

-- `ledger` is what billing reads and writes; `archives` are the uploaded files on the disk.
pub record Store : Type 0 where
  pub jobs : Table
  pub documents : List Document
  pub archives : List String
  pub projects : List Project
  pub ledger : Ledger

pub data Refusal : Type 0 where
  over_budget : BudgetAnswer → Refusal
  over_quota : QuotaAnswer → Refusal
  lacks_feature : Feature → Refusal
  not_found invalid conflict : String → Refusal
  failed_insert : Refusal

pub data Answer {ℓ} (A : Type ℓ) : Type ℓ where
  refused : Refusal → Answer A
  answered : A → Answer A

pub record Url : Type 0 where
  pub scheme : String
  pub netloc : String
  pub path : String

-- What a request reads of its environment; the month begins at `period_start`, and `fresh` is a
-- `uuid4`.
pub record Setting : Type 0 where
  pub lower : String → String
  pub parse_url : String → Url
  pub fresh : ℕ
  pub now : ℕ
  pub today : Moment
  pub period_start : ℕ
  pub plan_ceiling_usd : ℕ
  pub global_monthly_budget_usd : ℕ

pub record RepositoryJobRequest : Type 0 where
  pub repo_url : String
  pub branch : Option String
  pub paths : List String

pub record SnippetJobRequest : Type 0 where
  pub path : String
  pub content : String

pub data JobSource : Type 0 where
  repository : RepositoryJobRequest → JobSource
  snippet : SnippetJobRequest → JobSource

-- The fields that the two kinds of request share, and their own.
pub record JobRequest : Type 0 where
  pub project_id : Option ℕ
  pub output_language : String
  pub depth : Option GenerationDepth
  pub webhook_url : Option String
  pub source : JobSource

abbrev pub allowed_hosts : List String
allowed_hosts = "github.com" ∷ "www.github.com" ∷ "gitlab.com" ∷ "bitbucket.org" ∷ []

abbrev has_char : (Char → Bool) → String → Bool
has_char p String.[] = false
has_char p (String.◌∷◌ c s) = p c || has_char p s

-- The first guard that refuses; a slash is 47 and an at sign 64.
unfoldable pub validate_repo_url : Setting → String → Option Refusal
validate_repo_url e repo_url =
    let parsed = e.parse_url repo_url in
    if not (str_eq parsed.scheme "https")
    then some (invalid "Somente URLs HTTPS de repositorio sao aceitas.")
    else if not (any (str_eq (e.lower parsed.netloc)) allowed_hosts)
    then some (invalid "Host nao permitido.")
    else if not (has_char (λ c. not (code c == 47)) parsed.path)
    then some (invalid "URL de repositorio invalida.")
    else if has_char (λ c. code c == 64) parsed.netloc
    then some (invalid "Nao envie credenciais embutidas na URL.")
    else none

abbrev pub budget_refusal : BudgetAnswer → Option Refusal
budget_refusal within_budget = none
budget_refusal global_budget_spent = some (over_budget global_budget_spent)
budget_refusal credits_spent = some (over_budget credits_spent)

abbrev pub quota_refusal : QuotaAnswer → Option Refusal
quota_refusal granted = none
quota_refusal (quota_reached used quota) = some (over_quota (quota_reached used quota))
quota_refusal (too_many_active active limit) = some (over_quota (too_many_active active limit))

abbrev pub owns_project : (user_id project_id : ℕ) → Project → Bool
owns_project user_id project_id p = p.id == project_id && p.owner_id == user_id

-- `get_owned_project`, if a project is named.
abbrev pub project_refusal : Principal → Option ℕ → Store → Option Refusal
project_refusal p none s = none
project_refusal p (some project_id) s =
    if any (owns_project p.user.id project_id) s.projects
    then none
    else some (not_found "Projeto nao encontrado.")

abbrev pub is_url : Option String → Bool
is_url none = false
is_url (some url) = not (str_eq url String.[])

abbrev pub webhook_refusal : Principal → Option String → Option Refusal
webhook_refusal p webhook_url =
    if is_url webhook_url && not (allows p.plan webhooks)
    then some (lacks_feature webhooks)
    else none

abbrev pub source_refusal : Setting → Principal → JobSource → Option Refusal
source_refusal e p (repository r) = elim (validate_repo_url e r.repo_url) [
  | some refusal ↦ some refusal
  | none ↦
      if ltb p.plan.max_files_per_job (length r.paths)
      then some (invalid "O plano nao permite tantos arquivos por job.")
      else none
]
source_refusal e p (snippet r) =
    if is_some (detect_language e.lower r.path)
    then none
    else some (invalid "Extensao nao suportada.")

abbrev pub job_type_of : JobSource → JobType
job_type_of (repository r) = document_repository
job_type_of (snippet r) = document_snippet

-- `params`
abbrev pub params_of : Principal → JobRequest → JobSource → Params
params_of p payload (repository r) = record no_params {
  output_language = some payload.output_language;
  depth = some (resolve_depth (depth_text payload.depth) p.plan);
  repo_url = some r.repo_url;
  branch = r.branch;
  paths = some r.paths;
  max_files = some p.plan.max_files_per_job;
}
params_of p payload (snippet r) = record no_params {
  output_language = some payload.output_language;
  depth = some (resolve_depth (depth_text payload.depth) p.plan);
  path = some r.path;
  content = some r.content;
}

-- A guard: its refusal, or the rest of the handler.
abbrev pub guard {ℓ} : {A : Type ℓ} → Option Refusal → Answer A → Answer A
guard none rest = rest
guard (some refusal) rest = refused refusal

abbrev pub inserted : Store → Option (Job × Table) → Answer (Job × Store)
inserted s none = refused failed_insert
inserted s (some (job, jobs)) = answered (job, record s { jobs = jobs })

abbrev pub insert_job : Setting → Principal → JobRequest → Store → Answer (Job × Store)
insert_job e p payload s = inserted s (
    enqueue e.fresh e.now p.user.id (job_type_of payload.source)
      (params_of p payload payload.source) p.plan.queue_priority payload.project_id 3
      payload.webhook_url s.jobs)

-- The new job with the store after it; `s` after the settlement that the budget test makes.
unfoldable pub create_job : Setting → Principal → JobRequest → Store → Answer (Job × Store)
create_job e p payload s =
    let (budget, ledger) =
      enforce_cost_budget p.user.id e.plan_ceiling_usd e.global_monthly_budget_usd e.today
        s.ledger in
    guard (budget_refusal budget) (
      guard (quota_refusal (enforce_job_quota p.plan e.period_start p.user.id s.jobs)) (
        guard (project_refusal p payload.project_id s) (
          guard (webhook_refusal p payload.webhook_url) (
            guard (source_refusal e p payload.source)
              (insert_job e p payload (record s { ledger = ledger }))))))

-- `_owned_job`
abbrev pub is_visible : Principal → Job → Bool
is_visible p job = job.user_id == p.user.id && not (is_some job.deleted_at)

abbrev pub visible : Principal → Option Job → Option Job
visible p none = none
visible p (some job) = if is_visible p job then some job else none

unfoldable pub owned_job : Principal → (job_id : ℕ) → Store → Option Job
owned_job p job_id s = visible p (get_job job_id s.jobs)

abbrev pub not_a_job : Refusal
not_a_job = not_found "Job nao encontrado."

abbrev pub unlink : Option String → List String → List String
unlink none archives = archives
unlink (some path) archives = keep (λ a. not (str_eq a path)) archives

abbrev pub cancel_owned : Setting → Option Job → Store → Answer Store
cancel_owned e none s = refused not_a_job
cancel_owned e (some job) s =
    if is_terminal job.status
    then refused (conflict "O job ja esta em estado terminal.")
    else (let (done, jobs) = cancel_job job.id e.now s.jobs in
        if done
        then answered
            (record s { jobs = jobs; archives = unlink job.params.archive_path s.archives })
        else refused (conflict "O job ja saiu da fila e nao pode mais ser cancelado."))

unfoldable pub cancel : Setting → Principal → (job_id : ℕ) → Store → Answer Store
cancel e p job_id s = cancel_owned e (owned_job p job_id s) s

-- What `delete_from_history` leaves of the row.
abbrev pub emptied : (now : ℕ) → Job → Job
emptied now j = record j {
  params = no_params;
  webhook_url = none;
  error_message = none;
  progress_message = none;
  deleted_at = some now;
}

abbrev pub delete_owned : Setting → Option Job → Store → Answer Store
delete_owned e none s = refused not_a_job
delete_owned e (some job) s =
    if is_terminal job.status
    then answered (record s {
      jobs = map_where (λ j. j.id == job.id) (emptied e.now) s.jobs;
      documents = keep (λ d. not (of_job job.id d)) s.documents;
      archives = unlink job.params.archive_path s.archives;
    })
    else refused (conflict "O job ainda esta em andamento.")

unfoldable pub delete_from_history : Setting → Principal → (job_id : ℕ) → Store → Answer Store
delete_from_history e p job_id s = delete_owned e (owned_job p job_id s) s

abbrev pub depth_or_basic : Option GenerationDepth → GenerationDepth
depth_or_basic none = GenerationDepth.basic
depth_or_basic (some depth) = depth

-- A `JobResponse`: the job's row, of which it shows a part, and what is computed for it.
pub record JobResponse : Type 0 where
  pub job : Job
  pub document_count : ℕ
  pub depth : GenerationDepth
  pub source : Option String

abbrev pub first_text : Option String → Option String → Option String
first_text a b = if is_url a then a else b

abbrev pub source_of : Params → Option String
source_of params = first_text params.repo_url (first_text params.original_filename params.path)

abbrev pub response_of : Option Job → Store → Answer JobResponse
response_of none s = refused not_a_job
response_of (some job) s = answered (record {
  job = job;
  document_count = count (of_job job.id) s.documents;
  depth = depth_or_basic job.params.depth;
  source = source_of job.params;
})

unfoldable pub show_job : Principal → (job_id : ℕ) → Store → Answer JobResponse
show_job p job_id s = response_of (owned_job p job_id s) s

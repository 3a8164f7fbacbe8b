-- ===== src/JobRoutes/Tests.antt =====
-- A caller, its jobs and those of others, and the properties at them.
use legacy_doc.Common.{
  ℕ, ◌≤◌, ◌≡◌, refl, not, ◌&&◌, inl, arith, true, false, some, none, [], ◌∷◌, ◌++◌, count, split,
  chars,
}
use legacy_doc.Plans.{free_plan, allows, webhooks, resolve_depth, GenerationDepth, rank}
use legacy_doc.Jobs.{Job, failed, document_snippet, no_params, is_terminal}
use legacy_doc.Queue.{get_job, new_job, enqueue, count_active_jobs_for_user}
use legacy_doc.Quota.{enforce_job_quota, count_jobs_this_month}
use legacy_doc.Billing.{month_start}
use legacy_doc.Billing.Settlement.{
  enforce_cost_budget, balance_for, settle_overflow, active_grants, spend_in_month,
  global_spend_this_month,
}
use legacy_doc.Common.Sorting.{sorted}
use legacy_doc.Accounts.{User}
use legacy_doc.Accounts.Access.{Principal}
use legacy_doc.Languages.{detect_language, suffix, with_slashes}
use legacy_doc.Worker.{RepoFile, Surroundings, Document, returned, of_job}
use legacy_doc.Worker.Runner.{snippet_to_file}
use legacy_doc.Pipeline.Run.{Agents, unavailable}
use legacy_doc.JobRoutes.{
  Store, Setting, JobRequest, snippet, SnippetJobRequest, Answer, answered, refused, create_job,
  job_type_of, params_of, is_url, is_visible, not_a_job, show_job, cancel, delete_from_history,
}
use legacy_doc.JobRoutes.Tenancy.{hidden_refused}
use legacy_doc.JobRoutes.Creation.{OwnedProject, create_job_admits, created_snippet_runs}
use legacy_doc.JobRoutes.History.{delete_from_history_hides, deleted}

abbrev user : User
user = record {
  id = 1;
  email = "a@b.c";
  password_hash = "";
  plan_tier = "free";
  is_active = true;
  is_admin = false;
  failed_login_attempts = 0;
  locked_until = none;
  password_changed_at = none;
}

abbrev caller : Principal
caller = record { user = user; plan = free_plan; via_api_key = false }

abbrev setting : Setting
setting = record {
  lower = λ text. text;
  parse_url = λ text. record { scheme = "https"; netloc = "github.com"; path = "/a/b" };
  fresh = 9;
  now = 500;
  today = record { year = 2026; month = 3; day = 9; clock = 0 };
  period_start = 0;
  plan_ceiling_usd = 100;
  global_monthly_budget_usd = 1000;
}

-- A failed job of the user 1 and one of the user 2.
abbrev row : (id user_id : ℕ) → Job
row id user_id = record (new_job id 10 user_id document_snippet no_params 100 none 3 none) {
  status = failed;
}

abbrev document : ℕ → Document
document job_id = record {
  job_id = job_id;
  project_id = none;
  user_id = 1;
  path = "a.py";
  language = "python";
  content_sha256 = "";
  depth = GenerationDepth.basic;
  summary = none;
  symbols = [];
  findings = [];
}

abbrev store : Store
store = record {
  jobs = row 4 1 ∷ row 5 2 ∷ [];
  documents = document 4 ∷ document 5 ∷ [];
  archives = [];
  projects = [];
  ledger = record { usage = []; grants = []; settlements = [] };
}

hidden_refused_example :
    (show_job caller 5 store ≡ refused not_a_job)
    × (cancel setting caller 5 store ≡ refused not_a_job)
    × (delete_from_history setting caller 5 store ≡ refused not_a_job)
hidden_refused_example =
    hidden_refused setting caller 5 store (row 5 2) refl (inl (λ e. omega (arith, e)))

deletion : delete_from_history setting caller 4 store ≡ answered (deleted 500 (row 4 1) store)
unfolding delete_from_history legacy_doc.JobRoutes.owned_job is_terminal
deletion = refl

delete_from_history_hides_example :
    let s' = deleted 500 (row 4 1) store in
    (job : Job) × (get_job 4 store.jobs ≡ some job)
    × (is_visible caller job ≡ true)
    × (is_terminal job.status ≡ true)
    × (count (of_job 5) s'.documents ≡ 1)
    × (show_job caller 4 s' ≡ refused not_a_job)
    × (count_jobs_this_month 0 1 s'.jobs ≡ count_jobs_this_month 0 1 store.jobs)
delete_from_history_hides_example =
    delete_from_history_hides setting caller caller 4 5 0 1 store (deleted 500 (row 4 1) store)
      deletion

abbrev request : SnippetJobRequest
request = record { path = "a.py"; content = "def f(): pass" }

abbrev payload : JobRequest
payload = record {
  project_id = none;
  output_language = "pt-BR";
  depth = none;
  webhook_url = none;
  source = snippet request;
}

abbrev created : Job
created =
    new_job 9 500 1 document_snippet (params_of caller payload (snippet request))
      free_plan.queue_priority none 3 none

abbrev with_job : Store
with_job = record store {
  jobs = store.jobs ++ created ∷ [];
  ledger = settle_overflow 1 100 setting.today store.ledger;
}

creation : create_job setting caller payload store ≡ answered (created, with_job)
unfolding create_job enforce_cost_budget balance_for settle_overflow active_grants spend_in_month
    global_spend_this_month sorted month_start enforce_job_quota count_jobs_this_month
    count_active_jobs_for_user allows detect_language suffix with_slashes split enqueue
    resolve_depth rank
creation = refl

create_job_admits_example :
    (created ≡ created)
    × OwnedProject 1 none store.projects
    × ((is_url none && not (allows caller.plan webhooks)) ≡ false)
    × (count_active_jobs_for_user 1 with_job.jobs ≤ free_plan.max_concurrent_jobs)
    × (count_jobs_this_month 0 1 with_job.jobs ≤ free_plan.monthly_job_quota)
create_job_admits_example = create_job_admits setting caller payload store with_job created creation

abbrev silent : Agents
silent = record {
  fold = λ title. title;
  writer = λ chunk. some [];
  improver = λ chunk. none;
  verifier = λ round symbols. unavailable "down";
  rewriter = λ round symbol. none;
  ends_at = λ round symbol. 0;
  summarizer = λ symbols. none;
}

-- A worker that clones, extracts and finds nothing.
abbrev surroundings : Surroundings
surroundings = record {
  lower = λ text. text;
  is_space = λ c. false;
  parse = λ file language. record {
    path = file.path;
    language = language.name;
    source = file.content;
    symbols = [];
    parse_failed = false;
  };
  agents = λ index file. silent;
  crash = λ index file. none;
  others = λ n db. db;
  clock = λ tick. tick;
  lease_seconds = 60;
  sha256 = λ text. text;
  utf8_length = chars;
  user_tier = λ id. some "free";
  extraction_dir = λ id. "archive";
  extract = λ path directory. returned [];
  clone = λ url branch. returned "clone";
  scan = λ directory paths. returned (record {
    files = [];
    total_files_seen = 0;
    skipped_too_large = 0;
    skipped_binary = 0;
    truncated = false;
  });
}

created_snippet_runs_example :
    (f : RepoFile) × (snippet_to_file surroundings created ≡ returned f)
    × (f.path ≡ "a.py")
    × (f.content ≡ "def f(): pass")
created_snippet_runs_example =
    created_snippet_runs setting caller payload request store with_job created surroundings creation
      refl refl

-- ===== src/JobRoutes/Creation.antt =====
-- What a created job is.
use legacy_doc.Common.{
  ℕ, ◌≤◌, ◌≡◌, refl, sym, ap, ◌∙◌, subst, true, Bool-cases, Option-cases, inl, inr, Option, some,
  none, some_inj, List, [], ◌∷◌, any, not, ◌&&◌, false, ◌⊎◌, some≢none, String, is_some, arith,
}
use legacy_doc.Jobs.{Job, JobType, Params, Table}
use legacy_doc.Queue.{enqueue, new_job, get_job, count_active_jobs_for_user}
use legacy_doc.Quota.{
  QuotaAnswer, granted, quota_reached, too_many_active, enforce_job_quota, count_jobs_this_month,
}
use legacy_doc.Quota.Admission.{quota_kept}
use legacy_doc.Billing.Settlement.{enforce_cost_budget}
use legacy_doc.Accounts.Access.{Principal}
use legacy_doc.Plans.{allows, webhooks}
use legacy_doc.JobRoutes.{Project}
use legacy_doc.Languages.{detect_language}
use legacy_doc.Worker.{RepoFile, Surroundings, returned}
use legacy_doc.Worker.Runner.{snippet_to_file}
use legacy_doc.JobRoutes.{
  Store, Setting, Answer, answered, refused, Refusal, owns_project, is_url, JobRequest, snippet,
  SnippetJobRequest, guard, inserted, create_job, quota_refusal, project_refusal, webhook_refusal,
  source_refusal, job_type_of, params_of,
}

guard-answered :
    {A : Type 0} (o : Option Refusal) (rest : Answer A) (a : A)
    → guard o rest ≡ answered a
    → (o ≡ none) × (rest ≡ answered a)
guard-answered none rest a h = (refl, h)
guard-answered (some refusal) rest a h = absurd (ground (arith, h))

quota-granted : (q : QuotaAnswer) → quota_refusal q ≡ none → q ≡ granted
quota-granted granted h = refl
quota-granted (quota_reached used quota) h = absurd (some≢none h)
quota-granted (too_many_active active limit) h = absurd (some≢none h)

abbrev answer_of_insert : Answer (Job × Store) → Option (Job × Table)
answer_of_insert (refused refusal) = none
answer_of_insert (answered (job, s)) = some (job, s.jobs)

inserted-answered :
    (s : Store) (o : Option (Job × Table)) (job : Job) (s' : Store)
    → inserted s o ≡ answered (job, s')
    → o ≡ some (job, s'.jobs)
inserted-answered s none job s' h = absurd (ground (arith, h))
inserted-answered s (some (j, t)) job s' h = ap answer_of_insert h

create_job-guards :
    (e : Setting) (p : Principal) (payload : JobRequest) (s s' : Store) (job : Job)
    → create_job e p payload s ≡ answered (job, s')
    → (enforce_job_quota p.plan e.period_start p.user.id s.jobs ≡ granted)
      × (project_refusal p payload.project_id s ≡ none)
      × (webhook_refusal p payload.webhook_url ≡ none)
      × (source_refusal e p payload.source ≡ none)
      × (enqueue e.fresh e.now p.user.id
            (job_type_of payload.source)
            (params_of p payload payload.source)
            p.plan.queue_priority
            payload.project_id
            3
            payload.webhook_url
            s.jobs
          ≡ some (job, s'.jobs))
unfolding create_job
create_job-guards e p payload s s' job h =
    let ledger =
      (enforce_cost_budget p.user.id e.plan_ceiling_usd e.global_monthly_budget_usd e.today
        s.ledger).1 in
    let (_, h1) = guard-answered _ _ (job, s') h in
    let (q, h2) = guard-answered _ _ (job, s') h1 in
    let (owned, h3) = guard-answered _ _ (job, s') h2 in
    let (webhook, h4) = guard-answered _ _ (job, s') h3 in
    let (source, h5) = guard-answered _ _ (job, s') h4 in
    (
      quota-granted _ q,
      owned,
      webhook,
      source,
      inserted-answered (record s { ledger = ledger }) _ job s' h5,
    )

enqueue-row :
    (id now user_id : ℕ) (job_type : JobType) (params : Params) (priority : ℕ)
    (project_id : Option ℕ) (max_attempts : ℕ) (webhook_url : Option String) (t t' : Table)
    (job : Job)
    → enqueue id now user_id job_type params priority project_id max_attempts webhook_url t
      ≡ some (job, t')
    → job ≡ new_job id now user_id job_type params priority project_id max_attempts webhook_url
unfolding enqueue
enqueue-row id now user_id job_type params priority project_id max_attempts webhook_url t t' job h =
    elim (Option-cases (get_job id t)) [
      | inl e ↦ sym (ap (λ x. x.0) (some_inj (rw (e, enqueue) at h)))
      | inr (j, e) ↦ absurd (some≢none (sym (rw (e, enqueue) at h)))
    ]

-- If a project is named, one with that identifier and that owner is among the projects.
abbrev pub OwnedProject : (user_id : ℕ) → Option ℕ → List Project → Type 0
OwnedProject user_id none projects = Unit
OwnedProject user_id (some project_id) [] = ⊥
OwnedProject user_id (some project_id) (pr ∷ projects) =
    ((pr.id ≡ project_id) × (pr.owner_id ≡ user_id))
    ⊎ OwnedProject user_id (some project_id) projects

any-OwnedProject :
    (user_id project_id : ℕ) (projects : List Project)
    → any (owns_project user_id project_id) projects ≡ true
    → OwnedProject user_id (some project_id) projects
any-OwnedProject user_id project_id [] h = absurd (ground (arith, h))
any-OwnedProject user_id project_id (pr ∷ projects) h =
    elim (Bool-cases (owns_project user_id project_id pr)) [
      | inl e ↦ inl (ground (arith, e), ground (arith, e))
      | inr e ↦ inr (any-OwnedProject user_id project_id projects (rw e at h))
    ]

project_refusal-OwnedProject :
    (p : Principal) (project_id : Option ℕ) (s : Store)
    → project_refusal p project_id s ≡ none
    → OwnedProject p.user.id project_id s.projects
project_refusal-OwnedProject p none s h = tt
project_refusal-OwnedProject p (some i) s h =
    elim (Bool-cases (any (owns_project p.user.id i) s.projects)) [
      | inl e ↦ any-OwnedProject p.user.id i s.projects e
      | inr e ↦ absurd (some≢none (rw e at h))
    ]

webhook-allowed :
    (p : Principal) (url : Option String)
    → webhook_refusal p url ≡ none
    → (is_url url && not (allows p.plan webhooks)) ≡ false
webhook-allowed p url h = elim (Bool-cases (is_url url && not (allows p.plan webhooks))) [
  | inl e ↦ absurd (some≢none (rw e at h))
  | inr e ↦ e
]

-- A job that the route creates while no other request runs is queued for the caller, in a project
-- that is the caller's if one is named, with a webhook only if the plan has them, and leaves the
-- caller within the plan's jobs at once and in the month.
pub create_job_admits :
    (e : Setting) (p : Principal) (payload : JobRequest) (s s' : Store) (job : Job)
    → create_job e p payload s ≡ answered (job, s')
    → (job
        ≡ new_job e.fresh e.now p.user.id
            (job_type_of payload.source)
            (params_of p payload payload.source)
            p.plan.queue_priority
            payload.project_id
            3
            payload.webhook_url)
      × OwnedProject p.user.id payload.project_id s.projects
      × ((is_url payload.webhook_url && not (allows p.plan webhooks)) ≡ false)
      × (count_active_jobs_for_user p.user.id s'.jobs ≤ p.plan.max_concurrent_jobs)
      × (count_jobs_this_month e.period_start p.user.id s'.jobs ≤ p.plan.monthly_job_quota)
create_job_admits e p payload s s' job h =
    let (quota, owned, webhook, source, stored) = create_job-guards e p payload s s' job h in
    let job_type = job_type_of payload.source in
    let params = params_of p payload payload.source in
    let row =
      enqueue-row e.fresh e.now p.user.id job_type params p.plan.queue_priority payload.project_id 3
        payload.webhook_url s.jobs s'.jobs job stored in
    let (active, month) =
      quota_kept p.plan e.period_start e.fresh e.now p.user.id job_type params p.plan.queue_priority
        payload.project_id 3 payload.webhook_url s.jobs s'.jobs job quota stored in
    (
      row,
      project_refusal-OwnedProject p payload.project_id s owned,
      webhook-allowed p payload.webhook_url webhook,
      active,
      month,
    )

snippet-supported :
    (e : Setting) (p : Principal) (r : SnippetJobRequest)
    → source_refusal e p (snippet r) ≡ none
    → is_some (detect_language e.lower r.path) ≡ true
snippet-supported e p r h = elim (Bool-cases (is_some (detect_language e.lower r.path))) [
  | inl q ↦ q
  | inr q ↦ absurd (some≢none (rw q at h))
]

snippet-found :
    (x : Surroundings) (job : Job) (path content : String)
    → job.params.path ≡ some path
    → job.params.content ≡ some content
    → is_some (detect_language x.lower path) ≡ true
    → (f : RepoFile) × (snippet_to_file x job ≡ returned f)
      × (f.path ≡ path)
      × (f.content ≡ content)
unfolding snippet_to_file
snippet-found x job path content hp hc hl = elim (Option-cases (detect_language x.lower path)) [
  | inl e ↦ absurd (ground (arith, e, hl))
  | inr (language, e) ↦ (
    record {
      path = path;
      content = content;
      size_bytes = x.utf8_length content;
      language = language.name;
      sha256 = x.sha256 content;
    },
    rw hp (rw hc (rw e refl)),
    refl,
    refl,
  )
]

-- The worker finds in a created snippet job the file that the request held: neither a missing key
-- nor an unsupported extension fails it there.
pub created_snippet_runs :
    (e : Setting) (p : Principal) (payload : JobRequest) (r : SnippetJobRequest) (s s' : Store)
    (job : Job) (x : Surroundings)
    → create_job e p payload s ≡ answered (job, s')
    → payload.source ≡ snippet r
    → x.lower ≡ e.lower
    → (f : RepoFile) × (snippet_to_file x job ≡ returned f)
      × (f.path ≡ r.path)
      × (f.content ≡ r.content)
created_snippet_runs e p payload r s s' job x h kind same =
    let (_, _, _, source, stored) = create_job-guards e p payload s s' job h in
    let row =
      enqueue-row e.fresh e.now p.user.id (job_type_of payload.source)
        (params_of p payload payload.source) p.plan.queue_priority payload.project_id 3
        payload.webhook_url s.jobs s'.jobs job stored in
    let supported =
      snippet-supported e p r (subst (λ k. source_refusal e p k ≡ none) kind source) in
    snippet-found x job r.path r.content
      (ap (λ j. j.params.path) row ∙ ap (λ k. (params_of p payload k).path) kind)
      (ap (λ j. j.params.content) row ∙ ap (λ k. (params_of p payload k).content) kind)
      (ap (λ f. is_some (detect_language f r.path)) same ∙ supported)

-- ===== src/Quota/Admission.antt =====
-- What the quota promises of the jobs that it lets through.
use legacy_doc.Common.{
  ℕ, ◌+◌, ◌≤◌, ◌<◌, arith, ◌≡◌, ap, sym, ◌∙◌, subst, Bool, Bool-cases, Option-cases, inl, inr,
  Option, some, some_inj, some≢none, String, [], ◌∷◌, ◌++◌, count, ◌==◌, ◌&&◌,
}
use legacy_doc.Plans.{PlanLimits}
use legacy_doc.Jobs.{Job, JobType, Params, Table}
use legacy_doc.Queue.{enqueue, get_job, new_job, is_active, count_active_jobs_for_user}
use legacy_doc.Quota.{granted, counts_this_month, count_jobs_this_month, enforce_job_quota}

count-last : (p : Job → Bool) (t : Table) (j : Job) → count p (t ++ j ∷ []) ≤ count p t + 1
count-last p [] j = elim (Bool-cases (p j)) [
  | inl e ↦ ground (arith, e)
  | inr e ↦ ground (arith, e)
]
count-last p (k ∷ t) j = omega (arith, count-last p t j)

enqueue-appends :
    (id now user_id : ℕ) (job_type : JobType) (params : Params) (priority : ℕ)
    (project_id : Option ℕ) (max_attempts : ℕ) (webhook_url : Option String) (t t' : Table)
    (job : Job)
    → enqueue id now user_id job_type params priority project_id max_attempts webhook_url t
      ≡ some (job, t')
    → t ++ new_job id now user_id job_type params priority project_id max_attempts webhook_url ∷ []
      ≡ t'
unfolding enqueue
enqueue-appends id now user_id job_type params priority project_id max_attempts webhook_url t t' job
      h =
    elim (Option-cases (get_job id t)) [
      | inl e ↦ ap (λ p. p.1) (some_inj (rw (e, enqueue) at h))
      | inr (k, e) ↦ absurd (some≢none (sym h ∙ rw (e, enqueue)))
    ]

granted-room :
    (plan : PlanLimits) (period_start user_id : ℕ) (t : Table)
    → enforce_job_quota plan period_start user_id t ≡ granted
    → (count_jobs_this_month period_start user_id t < plan.monthly_job_quota)
      × (count_active_jobs_for_user user_id t < plan.max_concurrent_jobs)
unfolding enforce_job_quota
granted-room plan period_start user_id t h = ground (arith, h)

-- A job that is put in the table after the quota has let its user through leaves the user within the
-- plan: at most `max_concurrent_jobs` jobs waiting or running, and at most `monthly_job_quota` jobs
-- of the month, where no other job of the user is created in between.
pub quota_kept :
    (plan : PlanLimits) (period_start id now user_id : ℕ) (job_type : JobType) (params : Params)
    (priority : ℕ) (project_id : Option ℕ) (max_attempts : ℕ) (webhook_url : Option String)
    (t t' : Table) (job : Job)
    → enforce_job_quota plan period_start user_id t ≡ granted
    → enqueue id now user_id job_type params priority project_id max_attempts webhook_url t
      ≡ some (job, t')
    → (count_active_jobs_for_user user_id t' ≤ plan.max_concurrent_jobs)
      × (count_jobs_this_month period_start user_id t' ≤ plan.monthly_job_quota)
unfolding count_active_jobs_for_user count_jobs_this_month
quota_kept plan period_start id now user_id job_type params priority project_id max_attempts
      webhook_url t t' job h q =
    let new = new_job id now user_id job_type params priority project_id max_attempts webhook_url in
    let room = granted-room plan period_start user_id t h in
    subst
      (λ d.
        (count_active_jobs_for_user user_id d ≤ plan.max_concurrent_jobs)
        × (count_jobs_this_month period_start user_id d ≤ plan.monthly_job_quota))
      (enqueue-appends id now user_id job_type params priority project_id max_attempts webhook_url t
        t' job q)
      (
        omega (arith, room.1, count-last (λ j. j.user_id == user_id && is_active j) t new),
        omega (arith, room.0, count-last (counts_this_month period_start user_id) t new),
      )

-- ===== src/Quota.antt =====
-- The job quota: `count_jobs_this_month` and `enforce_job_quota` of
-- apps/api/legacydoc_api/deps.py, over the table of jobs. The month begins at `period_start`.
pub mod Admission
mod Tests
use legacy_doc.Common.{ℕ, Bool, not, ◌&&◌, ◌==◌, leb, if◌then◌else◌, count}
use legacy_doc.Plans.{PlanLimits}
use legacy_doc.Jobs.{Job, cancelled, same_status, Table}
use legacy_doc.Queue.{count_active_jobs_for_user}

abbrev pub counts_this_month : (period_start user_id : ℕ) → Job → Bool
counts_this_month period_start user_id j =
    j.user_id == user_id && leb period_start j.created_at && not (same_status j.status cancelled)

unfoldable pub count_jobs_this_month : (period_start user_id : ℕ) → Table → ℕ
count_jobs_this_month period_start user_id t = count (counts_this_month period_start user_id) t

-- The numbers of the two refusals: used and quota, active and limit.
pub data QuotaAnswer : Type 0 where
  granted : QuotaAnswer
  quota_reached too_many_active : ℕ → ℕ → QuotaAnswer

unfoldable pub enforce_job_quota : PlanLimits → (period_start user_id : ℕ) → Table → QuotaAnswer
enforce_job_quota plan period_start user_id t =
    let used = count_jobs_this_month period_start user_id t in
    let active = count_active_jobs_for_user user_id t in
    if leb plan.monthly_job_quota used
    then quota_reached used plan.monthly_job_quota
    else if leb plan.max_concurrent_jobs active
    then too_many_active active plan.max_concurrent_jobs
    else granted

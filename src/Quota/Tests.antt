-- ===== src/Quota/Tests.antt =====
-- A user of the free plan, and the property at it.
use legacy_doc.Common.{◌≡◌, refl, none, some, [], ◌∷◌}
use legacy_doc.Plans.{free_plan}
use legacy_doc.Jobs.{Table, no_params, document_snippet}
use legacy_doc.Queue.{enqueue, new_job, count_active_jobs_for_user}
use legacy_doc.Quota.{granted, too_many_active, count_jobs_this_month, enforce_job_quota}

abbrev one_job : Table
one_job = new_job 7 2000 1 document_snippet no_params 100 none 3 none ∷ []

one_at_a_time : enforce_job_quota free_plan 1000 1 one_job ≡ too_many_active 1 1
unfolding enforce_job_quota count_jobs_this_month count_active_jobs_for_user
one_at_a_time = refl

free_to_start : enforce_job_quota free_plan 1000 1 [] ≡ granted
unfolding enforce_job_quota count_jobs_this_month count_active_jobs_for_user
free_to_start = refl

first_job :
    enqueue 7 2000 1 document_snippet no_params 100 none 3 none []
    ≡ some (new_job 7 2000 1 document_snippet no_params 100 none 3 none, one_job)
unfolding enqueue
first_job = refl

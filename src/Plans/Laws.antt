-- ===== src/Plans/Laws.antt =====
-- What a plan lets a job do: depths are capped, and dearer plans give at least as much.
use legacy_doc.Common.{ℕ, ◌≤◌, ◌≡◌, true, Option, none, some, ◌&&◌, String, arith, min, leb, any}
use legacy_doc.Plans.{
  PlanTier, GenerationDepth, same_depth, rank, Feature, PlanLimits, allows, available_depths, plans,
  parse_depth, resolve_depth,
}

-- A depth is among those that a plan offers exactly when its rank is within the plan's.
pub available_depths_iff :
    (plan : PlanLimits) (d : GenerationDepth)
    → any (same_depth d) (available_depths plan) ≡ leb (rank d) (rank plan.max_depth)
unfolding available_depths rank
available_depths_iff plan d = ground arith

-- The rank that a request asks for: a missing or unknown depth asks for the deepest.
abbrev pub requested_rank : Option String → ℕ
unfolding rank
requested_rank none = rank GenerationDepth.pro
requested_rank (some s) = elim (parse_depth s) [ none ↦ rank GenerationDepth.pro | some d ↦ rank d ]

-- Whatever text a request carries for the depth, the job runs at a depth that the plan offers, and
-- its rank is the smaller of the rank asked for and the plan's; a missing or unknown depth asks for
-- the deepest.
pub resolve_depth_capped :
    (r : Option String) (plan : PlanLimits)
    → (any (same_depth (resolve_depth r plan)) (available_depths plan) ≡ true)
      × (rank (resolve_depth r plan) ≡ min (requested_rank r) (rank plan.max_depth))
unfolding resolve_depth available_depths rank
resolve_depth_capped none plan = ground arith
resolve_depth_capped (some s) plan = ground arith

abbrev tier_rank : PlanTier → ℕ
tier_rank PlanTier.free = 0
tier_rank PlanTier.pro = 1
tier_rank PlanTier.team = 2

-- A dearer tier gives at least what a cheaper one gives: each quota is as large, its jobs come as
-- early in the queue, its depth is as deep, and every feature is kept.
pub plans_monotone :
    (s t : PlanTier) (f : Feature)
    → tier_rank s ≤ tier_rank t
    → ((plans s).monthly_job_quota ≤ (plans t).monthly_job_quota)
      × ((plans s).max_files_per_job ≤ (plans t).max_files_per_job)
      × ((plans s).max_concurrent_jobs ≤ (plans t).max_concurrent_jobs)
      × ((plans t).queue_priority ≤ (plans s).queue_priority)
      × (rank (plans s).max_depth ≤ rank (plans t).max_depth)
      × ((allows (plans s) f && allows (plans t) f) ≡ allows (plans s) f)
unfolding plans rank allows
plans_monotone PlanTier.free PlanTier.free f h = ground arith
plans_monotone s t f h = ground arith

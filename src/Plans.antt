-- ===== src/Plans.antt =====
-- Commercial plans and generation depths: packages/core/legacydoc_core/plans.py.
-- A tier or a depth arrives as text; `PlanTier(tier)` raising `ValueError` is `none`.
-- A `frozenset` of features is a list of them.
pub mod Laws
mod Tests
use legacy_doc.Common.{
  ℕ, suc, ◌≡◌, Bool, true, false, Option, none, some, List, [], ◌∷◌, String, str_eq, leb,
  if◌then◌else◌, keep, any,
}

pub data PlanTier : Type 0 where
  free pro team : PlanTier

pub data GenerationDepth : Type 0 where
  basic standard pro : GenerationDepth

abbrev pub same_depth : GenerationDepth → GenerationDepth → Bool
same_depth GenerationDepth.basic GenerationDepth.basic = true
same_depth GenerationDepth.standard GenerationDepth.standard = true
same_depth GenerationDepth.pro GenerationDepth.pro = true
same_depth _ _ = false

-- `str(depth)`
abbrev pub depth_name : GenerationDepth → String
depth_name GenerationDepth.basic = "basic"
depth_name GenerationDepth.standard = "standard"
depth_name GenerationDepth.pro = "pro"

-- An optional depth as text.
abbrev pub depth_text : Option GenerationDepth → Option String
depth_text none = none
depth_text (some depth) = some (depth_name depth)

abbrev pub depth_order : List GenerationDepth
depth_order = GenerationDepth.basic ∷ GenerationDepth.standard ∷ GenerationDepth.pro ∷ []

-- `tuple.index`; every depth is in `depth_order`, so the end of the list is not reached.
abbrev index_of : GenerationDepth → List GenerationDepth → ℕ
index_of d [] = 0
index_of d (e ∷ es) = if same_depth d e then 0 else suc (index_of d es)

unfoldable pub rank : GenerationDepth → ℕ
rank d = index_of d depth_order

unfoldable pub runs_improver : GenerationDepth → Bool
unfolding rank
runs_improver d = leb (rank GenerationDepth.standard) (rank d)

unfoldable pub runs_verifier : GenerationDepth → Bool
unfolding rank
runs_verifier d = leb (rank GenerationDepth.pro) (rank d)

pub data Feature : Type 0 where
  documentation improvement_findings security_findings project_context : Feature
  custom_provider_routing webhooks priority_queue : Feature

-- Membership of a `frozenset`: equality of the enum's members.
abbrev pub same_feature : Feature → Feature → Bool
same_feature documentation documentation = true
same_feature improvement_findings improvement_findings = true
same_feature security_findings security_findings = true
same_feature project_context project_context = true
same_feature custom_provider_routing custom_provider_routing = true
same_feature webhooks webhooks = true
same_feature priority_queue priority_queue = true
same_feature _ _ = false

pub record PlanLimits : Type 0 where
  pub tier : PlanTier
  pub display_name : String
  pub monthly_job_quota : ℕ
  pub max_files_per_job : ℕ
  pub max_concurrent_jobs : ℕ
  pub queue_priority : ℕ
  pub max_depth : GenerationDepth
  pub features : List Feature

unfoldable pub allows : PlanLimits → Feature → Bool
allows plan feature = any (same_feature feature) plan.features

unfoldable pub available_depths : PlanLimits → List GenerationDepth
unfolding rank
available_depths plan = keep (λ depth. leb (rank depth) (rank plan.max_depth)) depth_order

abbrev pub free_plan : PlanLimits
free_plan = record {
  tier = PlanTier.free;
  display_name = "Free";
  monthly_job_quota = 20;
  max_files_per_job = 3;
  max_concurrent_jobs = 1;
  queue_priority = 100;
  max_depth = GenerationDepth.basic;
  features = documentation ∷ [];
}

abbrev pub pro_plan : PlanLimits
pro_plan = record {
  tier = PlanTier.pro;
  display_name = "Pro";
  monthly_job_quota = 500;
  max_files_per_job = 50;
  max_concurrent_jobs = 4;
  queue_priority = 50;
  max_depth = GenerationDepth.pro;
  features =
      documentation ∷ improvement_findings ∷ security_findings ∷ project_context ∷ webhooks ∷ [];
}

abbrev pub team_plan : PlanLimits
team_plan = record {
  tier = PlanTier.team;
  display_name = "Team";
  monthly_job_quota = 5000;
  max_files_per_job = 500;
  max_concurrent_jobs = 16;
  queue_priority = 10;
  max_depth = GenerationDepth.pro;
  features =
      documentation ∷ improvement_findings ∷ security_findings ∷ project_context
      ∷ custom_provider_routing ∷ webhooks ∷ priority_queue ∷ [];
}

-- `PLANS`, a dictionary with an entry for each tier.
unfoldable pub plans : PlanTier → PlanLimits
plans PlanTier.free = free_plan
plans PlanTier.pro = pro_plan
plans PlanTier.team = team_plan

-- `PlanTier(tier)`
unfoldable pub parse_tier : String → Option PlanTier
parse_tier s =
    if str_eq s "free"
    then some PlanTier.free
    else if str_eq s "pro"
    then some PlanTier.pro
    else if str_eq s "team"
    then some PlanTier.team
    else none

-- `GenerationDepth(requested)`
unfoldable pub parse_depth : String → Option GenerationDepth
parse_depth s =
    if str_eq s "basic"
    then some GenerationDepth.basic
    else if str_eq s "standard"
    then some GenerationDepth.standard
    else if str_eq s "pro"
    then some GenerationDepth.pro
    else none

-- `except ValueError: return PLANS[PlanTier.FREE]`
abbrev plan_or_free : Option PlanTier → PlanLimits
unfolding plans
plan_or_free none = plans PlanTier.free
plan_or_free (some tier) = plans tier

unfoldable pub get_plan : String → PlanLimits
unfolding plan_or_free parse_tier plans
get_plan tier = plan_or_free (parse_tier tier)

-- `depth if depth.rank <= plan.max_depth.rank else plan.max_depth`
abbrev capped : PlanLimits → Option GenerationDepth → GenerationDepth
unfolding rank
capped plan none = plan.max_depth
capped plan (some depth) = if leb (rank depth) (rank plan.max_depth) then depth else plan.max_depth

unfoldable pub resolve_depth : Option String → PlanLimits → GenerationDepth
unfolding capped rank
resolve_depth none plan = plan.max_depth
resolve_depth (some requested) plan = capped plan (parse_depth requested)

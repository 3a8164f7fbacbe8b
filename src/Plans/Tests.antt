-- ===== src/Plans/Tests.antt =====
-- Tests and witnesses for the plans.
use legacy_doc.Common.{◌≡◌, refl, some}
use legacy_doc.Plans.{GenerationDepth, get_plan, parse_depth, resolve_depth, free_plan, team_plan}

-- An unknown tier falls back to the free plan.
get_plan-unknown : get_plan "enterprise" ≡ free_plan
unfolding get_plan
get_plan-unknown = refl

get_plan-team : get_plan "team" ≡ team_plan
unfolding get_plan
get_plan-team = refl

resolve_depth-free : resolve_depth (some "pro") free_plan ≡ GenerationDepth.basic
unfolding resolve_depth parse_depth
resolve_depth-free = refl

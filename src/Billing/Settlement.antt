-- ===== src/Billing/Settlement.antt =====
-- Credits and the settlement of a month: packages/core/legacydoc_core/billing.py, and the test of
-- the budget in apps/api/legacydoc_api/deps.py. Amounts are natural numbers of a fixed unit, so
-- `max(0.0, …)` is their subtraction; the display of credits in reais, which divides, is left out,
-- and a plan is its allowance (`ceiling_usd`).
use legacy_doc.Common.{
  ℕ, ◌+◌, ◌-◌, min, Bool, not, ◌&&◌, ◌||◌, ltb, leb, ◌==◌, List, [], ◌∷◌, keep, if◌then◌else◌,
}
use legacy_doc.Common.Sorting.{sorted}
use legacy_doc.Billing.{Moment, month_start, period_key, is_earlier}

pub record CreditGrant : Type 0 where
  pub id : ℕ
  pub user_id : ℕ
  pub credits_brl : ℕ
  pub ceiling_usd : ℕ
  pub remaining_usd : ℕ
  pub created_at : Moment
  pub expires_at : Moment

-- A row of `usage_settlements`; its key is the user with the period.
pub record UsageSettlement : Type 0 where
  pub user_id : ℕ
  pub period : ℕ × ℕ
  pub settled_usd : ℕ

-- What is read of a row of `usage_records`.
pub record UsageRecord : Type 0 where
  pub user_id : ℕ
  pub cost_usd : ℕ
  pub created_at : Moment

pub record Ledger : Type 0 where
  pub usage : List UsageRecord
  pub grants : List CreditGrant
  pub settlements : List UsageSettlement

-- `func.sum` of the costs.
abbrev pub total_cost : List UsageRecord → ℕ
total_cost [] = 0
total_cost (u ∷ us) = u.cost_usd + total_cost us

abbrev pub since : Moment → UsageRecord → Bool
since start u = not (is_earlier u.created_at start)

unfoldable pub spend_in_month : (user_id : ℕ) (now : Moment) → List UsageRecord → ℕ
spend_in_month user_id now usage =
    total_cost (keep (λ u. u.user_id == user_id && since (month_start now) u) usage)

unfoldable pub global_spend_this_month : (now : Moment) → List UsageRecord → ℕ
global_spend_this_month now usage = total_cost (keep (since (month_start now)) usage)

-- `ORDER BY expires_at, created_at`
abbrev pub expires_first : CreditGrant → CreditGrant → Bool
expires_first a b =
    is_earlier a.expires_at b.expires_at
    || (not (is_earlier b.expires_at a.expires_at) && not (is_earlier b.created_at a.created_at))

unfoldable pub active_grants : (user_id : ℕ) (now : Moment) → List CreditGrant → List CreditGrant
active_grants user_id now grants =
    keep (λ g. is_earlier now g.expires_at)
      (sorted expires_first (keep (λ g. g.user_id == user_id && ltb 0 g.remaining_usd) grants))

-- `grant.remaining_usd -= taken`
abbrev pub take_from : (id taken : ℕ) → List CreditGrant → List CreditGrant
take_from id taken [] = []
take_from id taken (g ∷ gs) =
    (if g.id == id then record g { remaining_usd = g.remaining_usd - taken } else g)
    ∷ take_from id taken gs

-- The loop over the active grants, on the table; with nothing pending it breaks off.
abbrev pub charge : (pending : ℕ) → List CreditGrant → List CreditGrant → List CreditGrant
charge pending [] grants = grants
charge pending (g ∷ active) grants =
    if pending == 0
    then grants
    else (let taken = min g.remaining_usd pending in
        charge (pending - taken) active (take_from g.id taken grants))

abbrev pub is_settlement : (user_id : ℕ) (period : ℕ × ℕ) → UsageSettlement → Bool
is_settlement user_id period s =
    s.user_id == user_id && (s.period.0 == period.0 && s.period.1 == period.1)

abbrev pub settled_usd : (user_id : ℕ) (period : ℕ × ℕ) → List UsageSettlement → ℕ
settled_usd user_id period [] = 0
settled_usd user_id period (s ∷ ss) =
    if is_settlement user_id period s then s.settled_usd else settled_usd user_id period ss

-- The amount is written to the row of the key, which is added where it is missing.
abbrev pub put_settlement :
    (user_id : ℕ) (period : ℕ × ℕ) (amount : ℕ) → List UsageSettlement → List UsageSettlement
put_settlement user_id period amount [] =
    record { user_id = user_id; period = period; settled_usd = amount } ∷ []
put_settlement user_id period amount (s ∷ ss) =
    if is_settlement user_id period s
    then record s { settled_usd = amount } ∷ ss
    else s ∷ put_settlement user_id period amount ss

-- What the month's spend beyond the plan has not been charged for yet.
abbrev pub overflow : (user_id plan_ceiling_usd : ℕ) (now : Moment) → Ledger → ℕ
overflow user_id plan_ceiling_usd now l = spend_in_month user_id now l.usage - plan_ceiling_usd

abbrev pub pending_of : (user_id plan_ceiling_usd : ℕ) (now : Moment) → Ledger → ℕ
pending_of user_id plan_ceiling_usd now l =
    overflow user_id plan_ceiling_usd now l - settled_usd user_id (period_key now) l.settlements

-- Without a pending amount only the missing settlement is added.
unfoldable pub settle_overflow : (user_id plan_ceiling_usd : ℕ) (now : Moment) → Ledger → Ledger
settle_overflow user_id plan_ceiling_usd now l =
    let pending = pending_of user_id plan_ceiling_usd now l in
    let settled = settled_usd user_id (period_key now) l.settlements in
    if pending == 0
    then record l { settlements = put_settlement user_id (period_key now) settled l.settlements }
    else record l {
      grants = charge pending (active_grants user_id now l.grants) l.grants;
      settlements =
          put_settlement user_id (period_key now) (overflow user_id plan_ceiling_usd now l)
            l.settlements;
    }

abbrev pub total_remaining : List CreditGrant → ℕ
total_remaining [] = 0
total_remaining (g ∷ gs) = g.remaining_usd + total_remaining gs

-- The amounts of a `Balance` in dollars.
pub record Balance : Type 0 where
  pub spent_usd : ℕ
  pub plan_remaining_usd : ℕ
  pub topup_remaining_usd : ℕ

abbrev pub available_usd : Balance → ℕ
available_usd b = b.plan_remaining_usd + b.topup_remaining_usd

unfoldable pub balance_for :
    (user_id plan_ceiling_usd : ℕ) (now : Moment) → Ledger → Balance × Ledger
balance_for user_id plan_ceiling_usd now l =
    let l' = settle_overflow user_id plan_ceiling_usd now l in
    let spent = spend_in_month user_id now l'.usage in
    (
      record {
        spent_usd = spent;
        plan_remaining_usd = plan_ceiling_usd - spent;
        topup_remaining_usd = total_remaining (active_grants user_id now l'.grants);
      },
      l',
    )

pub data BudgetAnswer : Type 0 where
  within_budget global_budget_spent credits_spent : BudgetAnswer

-- `enforce_cost_budget`: a refusal rolls the transaction back.
unfoldable pub enforce_cost_budget :
    (user_id plan_ceiling_usd global_monthly_budget_usd : ℕ) (now : Moment)
    → Ledger
    → BudgetAnswer × Ledger
enforce_cost_budget user_id plan_ceiling_usd global_monthly_budget_usd now l =
    let (balance, l') = balance_for user_id plan_ceiling_usd now l in
    if leb global_monthly_budget_usd (global_spend_this_month now l.usage)
    then (global_budget_spent, l)
    else if available_usd balance == 0
    then (credits_spent, l)
    else (within_budget, l')

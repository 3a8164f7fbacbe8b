-- ===== src/Billing/Tests.antt =====
-- A few dates, and the properties at them.
use legacy_doc.Common.{ℕ, ◌≤◌, ◌==◌, arith, ◌≡◌, refl, if◌then◌else◌}
use legacy_doc.Common.{[], ◌∷◌, ◌+◌, min}
use legacy_doc.Common.Sorting.{sorted}
use legacy_doc.Billing.Settlement.{
  CreditGrant, Ledger, spend_in_month, active_grants, pending_of, settle_overflow, total_remaining,
}
use legacy_doc.Billing.Charges.{AreDistinct, settle_overflow_conserves}
use legacy_doc.Billing.Settled.{settle_overflow_once}
use legacy_doc.Billing.{Moment, month_start, next_month_start, add_months}
use legacy_doc.Billing.Calendar.{IsDate}

abbrev date : ℕ → ℕ → ℕ → Moment
date year month day = record { year = year; month = month; day = day; clock = 0 }

-- The days of the months, without leap years.
abbrev days : ℕ → ℕ → ℕ
days year month = if month == 2 then 28 else 30

end_of_january : add_months days (date 2026 1 30) 13 ≡ date 2027 2 28
unfolding add_months
end_of_january = refl

after_december : next_month_start (date 2026 12 9) ≡ date 2027 1 1
unfolding next_month_start month_start
after_december = refl

days-long : (year month : ℕ) → 28 ≤ days year month
days-long year month = ground arith

date_exists : IsDate days (date 2026 1 30)
date_exists = record {
  first_month = omega arith;
  last_month = omega arith;
  first_day = omega arith;
  last_day = omega arith;
}

abbrev grant : ℕ → ℕ → Moment → CreditGrant
grant id amount expires_at = record {
  id = id;
  user_id = 1;
  credits_brl = amount;
  ceiling_usd = amount;
  remaining_usd = amount;
  created_at = date 2026 1 1;
  expires_at = expires_at;
}

-- A spend of 100 against an allowance of 40, two credits, and one that has expired.
abbrev ledger : Ledger
ledger = record {
  usage = record { user_id = 1; cost_usd = 100; created_at = date 2026 3 5 } ∷ [];
  grants =
      grant 1 50 (date 2027 5 1) ∷ grant 2 25 (date 2026 9 1) ∷ grant 3 70 (date 2026 2 1) ∷ [];
  settlements = [];
}

earliest_first : total_remaining (settle_overflow 1 40 (date 2026 3 9) ledger).grants ≡ 85
unfolding settle_overflow spend_in_month active_grants sorted month_start
earliest_first = refl

grants-AreDistinct : AreDistinct ledger.grants
grants-AreDistinct i = ground arith

settle_overflow_conserves_example :
    total_remaining (settle_overflow 1 40 (date 2026 3 9) ledger).grants
      + min
          (pending_of 1 40 (date 2026 3 9) ledger)
          (total_remaining (active_grants 1 (date 2026 3 9) ledger.grants))
    ≡ 145
settle_overflow_conserves_example =
    settle_overflow_conserves 1 40 (date 2026 3 9) ledger grants-AreDistinct

settle_overflow_once_example :
    let settled = settle_overflow 1 40 (date 2026 3 9) ledger in
    settle_overflow 1 40 (date 2026 3 30) settled ≡ settled
settle_overflow_once_example =
    settle_overflow_once 1 40 (date 2026 3 9) (date 2026 3 30) ledger refl refl

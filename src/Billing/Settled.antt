-- ===== src/Billing/Settled.antt =====
-- A month is settled once.
use legacy_doc.Common.{
  ℕ, ◌-◌, ◌≤◌, ◌≡◌, refl, sym, ap, ◌∙◌, subst, true, ◌&&◌, Bool-cases, inl, inr, List, [], ◌∷◌,
  ◌==◌, arith, keep,
}
use legacy_doc.Billing.{Moment, month_start, period_key}
use legacy_doc.Billing.Settlement.{
  UsageSettlement, Ledger, since, total_cost, spend_in_month, is_settlement, settled_usd,
  put_settlement, overflow, pending_of, settle_overflow,
}

settled_usd-put_settlement :
    (u : ℕ) (p : ℕ × ℕ) (a : ℕ) (ss : List UsageSettlement)
    → settled_usd u p (put_settlement u p a ss) ≡ a
settled_usd-put_settlement u p a [] = ground arith
settled_usd-put_settlement u p a (s ∷ ss) = elim (Bool-cases (is_settlement u p s)) [
  | inl e ↦ rw e (rw e refl)
  | inr e ↦ rw e (rw e (settled_usd-put_settlement u p a ss))
]

put_settlement_again :
    (u : ℕ) (p : ℕ × ℕ) (a : ℕ) (ss : List UsageSettlement)
    → put_settlement u p a (put_settlement u p a ss) ≡ put_settlement u p a ss
put_settlement_again u p a [] = ground arith
put_settlement_again u p a (s ∷ ss) = elim (Bool-cases (is_settlement u p s)) [
  | inl e ↦ rw e (rw e refl)
  | inr e ↦ rw e (rw e (ap (λ t. s ∷ t) (put_settlement_again u p a ss)))
]

-- The ledger whose settlement of the month is at least the overflow is left as it is.
settled_kept :
    (user_id plan_ceiling_usd a : ℕ) (now : Moment) (l : Ledger) (ss : List UsageSettlement)
    → l.settlements ≡ put_settlement user_id (period_key now) a ss
    → overflow user_id plan_ceiling_usd now l ≤ a
    → settle_overflow user_id plan_ceiling_usd now l ≡ l
unfolding settle_overflow
settled_kept user_id plan_ceiling_usd a now l ss row enough =
    let settled : settled_usd user_id (period_key now) l.settlements ≡ a =
      ap (settled_usd user_id (period_key now)) row
      ∙ settled_usd-put_settlement user_id (period_key now) a ss in
    let nothing : (pending_of user_id plan_ceiling_usd now l == 0) ≡ true =
      ground (arith, settled, enough) in
    rw nothing (
      ap (λ t. record l { settlements = t })
        (ap (λ n. put_settlement user_id (period_key now) n l.settlements) settled
          ∙ ap (put_settlement user_id (period_key now) a) row
          ∙ put_settlement_again user_id (period_key now) a ss
          ∙ sym row))

settle_overflow-settled :
    (user_id plan_ceiling_usd : ℕ) (now : Moment) (l : Ledger)
    → (a : ℕ) × ((settle_overflow user_id plan_ceiling_usd now l).settlements
        ≡ put_settlement user_id (period_key now) a l.settlements)
      × ((settle_overflow user_id plan_ceiling_usd now l).usage ≡ l.usage)
      × (overflow user_id plan_ceiling_usd now l ≤ a)
unfolding settle_overflow
settle_overflow-settled user_id plan_ceiling_usd now l =
    elim (Bool-cases (pending_of user_id plan_ceiling_usd now l == 0)) [
      | inl e ↦
          rw e (settled_usd user_id (period_key now) l.settlements, refl, refl, ground (arith, e))
      | inr e ↦ rw e (overflow user_id plan_ceiling_usd now l, refl, refl, omega arith)
    ]

-- Once the overflow of a month has been settled, settling it again at any moment of the month,
-- with no use in between, changes nothing: no credit is charged twice, and what no credit covered
-- stays forgiven.
pub settle_overflow_once :
    (user_id plan_ceiling_usd : ℕ) (now now' : Moment) (l : Ledger)
    → now'.year ≡ now.year
    → now'.month ≡ now.month
    → let l' = settle_overflow user_id plan_ceiling_usd now l in
      settle_overflow user_id plan_ceiling_usd now' l' ≡ l'
unfolding spend_in_month month_start
settle_overflow_once user_id plan_ceiling_usd now now' l same_year same_month =
    let l' = settle_overflow user_id plan_ceiling_usd now l in
    let (a, row, usage, enough) = settle_overflow-settled user_id plan_ceiling_usd now l in
    let key : period_key now' ≡ period_key now = cc in
    let start : month_start now' ≡ month_start now =
      λ i. record { year = same_year i; month = same_month i; day = 1; clock = 0 } in
    let same : spend_in_month user_id now' l'.usage ≡ spend_in_month user_id now l.usage =
      ap (λ s. total_cost (keep (λ u. u.user_id == user_id && since s u) l'.usage)) start
      ∙ ap (λ us. total_cost (keep (λ u. u.user_id == user_id && since (month_start now) u) us))
          usage in
    settled_kept user_id plan_ceiling_usd a now' l' l.settlements
      (subst (λ k. l'.settlements ≡ put_settlement user_id k a l.settlements) (sym key) row)
      (subst (λ n. n - plan_ceiling_usd ≤ a) (sym same) enough)

-- ===== src/Billing/Calendar.antt =====
-- Months that follow each other.
use legacy_doc.Common.{ℕ, ◌+◌, ◌-◌, ◌*◌, ◌≤◌, arith, ◌≡◌, refl}
use legacy_doc.Billing.{Moment, month_start, next_month_start, add_months}

-- A moment whose month and day exist.
pub record IsDate (month_days : ℕ → ℕ → ℕ) (m : Moment) : Type 0 where
  pub first_month : 1 ≤ m.month
  pub last_month : m.month ≤ 12
  pub first_day : 1 ≤ m.day
  pub last_day : m.day ≤ month_days m.year m.month

-- The months from the year 0 to a moment.
abbrev pub month_count : Moment → ℕ
month_count m = 12 * m.year + (m.month - 1)

-- Adding months to a date gives a date, exactly that many months later, at the same time of the day
-- and never on a later day of the month.
pub add_months_lem :
    (month_days : ℕ → ℕ → ℕ) (m : Moment) (months : ℕ)
    → ((year month : ℕ) → 28 ≤ month_days year month)
    → IsDate month_days m
    → let later = add_months month_days m months in
      IsDate month_days later
      × (month_count later ≡ month_count m + months)
      × (later.clock ≡ m.clock)
      × (later.day ≤ m.day)
unfolding add_months
add_months_lem month_days m months long h =
    let year = (add_months month_days m months).year in
    let month = (add_months month_days m months).month in
    (
      record {
        first_month = omega arith;
        last_month = omega arith;
        first_day = omega (arith, h.first_day, long year month);
        last_day = omega arith;
      },
      omega (arith, h.first_month),
      refl,
      omega arith,
    )

-- The month after the one of a date begins one month later than that one.
pub next_month_start_lem :
    (m : Moment)
    → 1 ≤ m.month
    → m.month ≤ 12
    → (month_count (next_month_start m) ≡ month_count (month_start m) + 1)
      × (1 ≤ (next_month_start m).month)
      × ((next_month_start m).month ≤ 12)
unfolding month_start next_month_start
next_month_start_lem m a b = (omega (arith, a, b), omega arith, omega arith)

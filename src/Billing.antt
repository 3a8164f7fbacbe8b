-- ===== src/Billing.antt =====
-- The calendar of packages/core/legacydoc_core/billing.py: months of the account and of credits.
pub mod Calendar
pub mod Settlement
pub mod Charges
pub mod Settled
mod Tests
use legacy_doc.Common.{ℕ, ◌+◌, ◌-◌, ◌/◌, ◌%◌, min, Bool, ◌&&◌, ◌||◌, ltb, ◌==◌}

-- A `datetime` in UTC; `clock` is its time of the day.
pub record Moment : Type 0 where
  pub year : ℕ
  pub month : ℕ
  pub day : ℕ
  pub clock : ℕ

unfoldable pub month_start : Moment → Moment
month_start m = record { year = m.year; month = m.month; day = 1; clock = 0 }

unfoldable pub next_month_start : Moment → Moment
next_month_start m =
    let start = month_start m in
    record {
      year = start.year + start.month / 12;
      month = start.month % 12 + 1;
      day = 1;
      clock = 0;
    }

-- `strftime("%Y-%m")` of the start of the month, as its two numbers.
abbrev pub period_key : Moment → ℕ × ℕ
period_key m = (m.year, m.month)

-- `a < b` on moments.
abbrev pub is_earlier : Moment → Moment → Bool
is_earlier a b =
    ltb a.year b.year
    || (a.year == b.year
        && (ltb a.month b.month
            || (a.month == b.month
                && (ltb a.day b.day || (a.day == b.day && ltb a.clock b.clock)))))

-- `month_days year month` is `calendar.monthrange(year, month)[1]`.
unfoldable pub add_months : (ℕ → ℕ → ℕ) → Moment → ℕ → Moment
add_months month_days moment months =
    let index = moment.month - 1 + months in
    let year = moment.year + index / 12 in
    let month = index % 12 + 1 in
    record moment { year = year; month = month; day = min moment.day (month_days year month) }

-- ===== src/RateLimit/Tests.antt =====
-- Runs of the limiter with one tick to a second, and its theorems at concrete inputs.
use legacy_doc.Common.{◌+◌, ◌/◌, ◌%◌, ◌≤◌, ◌≡◌, refl, true, false, some, [], ◌∷◌, arith, length}
use legacy_doc.RateLimit.{
  RateLimitRule, RateLimitDecision, KeyState, States, roll_window, decide_state, check,
  seconds_until_allowed,
}
use legacy_doc.RateLimit.Retry.{ceil_div, ceil_div-covers, retry_after_enough}
use legacy_doc.RateLimit.Window.{admitted, admitted_bounded}
use legacy_doc.RateLimit.Capacity.{check_total}

-- Four requests a minute.
abbrev four : RateLimitRule
four = record { max_requests = 4; window = 60; name = "read" }

abbrev spent : KeyState
spent = record { window_index = 2; current_count = 4; previous_count = 1 }

-- Two requests of the previous window still weigh half at mid-window.
abbrev mixed : KeyState
mixed = record { window_index = 2; current_count = 3; previous_count = 2 }

decide_state-mixed :
    (decide_state ceil_div 1 four 30 mixed).0
    ≡ record { allowed = false; remaining = 0; retry_after_seconds = 1 }
unfolding decide_state seconds_until_allowed
decide_state-mixed = refl

decide_state-spent : (decide_state ceil_div 1 four 45 spent).0.retry_after_seconds ≡ 15
unfolding decide_state seconds_until_allowed
decide_state-spent = refl

retry_after_enough_example :
    (decide_state ceil_div 1 four
      (181 % 60)
      (roll_window (decide_state ceil_div 1 four (165 % 60) spent).1 (181 / 60))).0.allowed
    ≡ true
unfolding decide_state seconds_until_allowed
retry_after_enough_example =
    retry_after_enough ceil_div ceil_div-covers 1 four spent 165 181 (omega arith) (omega arith)
      (omega arith) refl (omega arith) refl (omega arith)

-- Six requests over two windows, three of them in window 2, where one had been counted before.
admitted_bounded_example :
    admitted ceil_div 1 four 2
        (121 ∷ 122 ∷ 123 ∷ 130 ∷ 179 ∷ 181 ∷ [])
        (record { window_index = 2; current_count = 1; previous_count = 0 })
      + 1
    ≤ 4
admitted_bounded_example =
    admitted_bounded ceil_div 1 four 2 (121 ∷ 122 ∷ 123 ∷ 130 ∷ 179 ∷ 181 ∷ [])
      (record { window_index = 2; current_count = 1; previous_count = 0 }) (omega arith)
      (omega arith)

-- A third key evicts the oldest of two.
check_total_example :
    (decision : RateLimitDecision) × (d' : States) × (check ceil_div 1 2 165 9 four
        ((7, mixed) ∷ (8, spent) ∷ [])
      ≡ some (decision, d'))
    × (length d' ≤ 2)
check_total_example =
    check_total ceil_div 1 2 165 9 four ((7, mixed) ∷ (8, spent) ∷ []) (omega arith) (omega arith)

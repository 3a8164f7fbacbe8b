-- ===== src/Queue/Backoff.antt =====
-- How long a failed job waits.
use legacy_doc.Common.{ℕ, ◌+◌, ◌-◌, ◌≤◌, ◌<◌, ◌≡◌, Bool, true, false, String, arith}
use legacy_doc.Common.Arith.{pow-pos, pow_mono}
use legacy_doc.Jobs.{Job}
use legacy_doc.Queue.{backoff, eligible, failure}

-- The delay grows with the attempts, never passes fifteen minutes, and is at least half a minute once
-- the job has been claimed.
pub backoff_bounds :
    (a b : ℕ) → 1 ≤ a → a ≤ b → (30 ≤ backoff a) × (backoff a ≤ backoff b) × (backoff b ≤ 900)
unfolding backoff
backoff_bounds a b h k = ground (arith, pow-pos (a - 1), pow_mono (a - 1) (b - 1))

-- A job that failed and is to be tried again is not eligible for any claim before its delay has
-- passed, which is at least thirty seconds after the failure.
pub failure_waits :
    (skip : ℕ → Bool) (now later : ℕ) (code message : String) (seen j : Job)
    → 1 ≤ seen.attempts
    → later < now + 30
    → eligible skip later (failure true now code message seen j) ≡ false
failure_waits skip now later code message seen j a h =
    ground (arith, backoff_bounds seen.attempts seen.attempts a)

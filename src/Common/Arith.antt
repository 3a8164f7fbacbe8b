-- ===== src/Common/Arith.antt =====
-- Arithmetic facts that the components share.
use legacy_doc.Common.{ℕ, zero, suc, ◌≤◌, ◌^◌, arith}
use native.Mathlib.Nat.{pow-suc}

pub pow-pos : (k : ℕ) → 1 ≤ 2 ^ k
pow-pos zero = omega arith
pow-pos (suc k) = omega (arith, pow-pos k, pow-suc 2 k)

pub pow_mono : (a b : ℕ) → a ≤ b → 2 ^ a ≤ 2 ^ b
pow_mono zero b h = pow-pos b
pow_mono (suc a) zero h = absurd (omega arith)
pow_mono (suc a) (suc b) h = omega (arith, pow-suc 2 a, pow-suc 2 b, pow_mono a b (omega arith))

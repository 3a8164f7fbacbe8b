-- ===== src/Common/Texts.antt =====
-- Texts, measured in characters as Python's `len` does, and the `str` methods on them.
use Prim.Native.Nat.{ℕ, zero, suc, ◌≤◌, ◌+◌, ◌/◌, ◌%◌}
use Prim.Native.String.{String, count as chars, ◌++◌ as append, slice}
use text.Mathlib.TextLemmas.{length-nil, length-cons}
use Prim.Native.Char.{Char, code}
use mathlib.Core.Bool.{true, false}
use mathlib.Core.List.{List, [], ◌∷◌}
use native.Mathlib.Omega.{arith}
use legacy_doc.Common.Tests.{◌==◌, ltb, if◌then◌else◌}
pub use Prim.Native.String.{count as chars, ◌++◌ as append}
pub use text.Mathlib.TextLemmas.{length-append as chars-append}

-- `text[:n]`
unfoldable pub clip : ℕ → String → String
clip zero s = String.[]
clip (suc n) String.[] = String.[]
clip (suc n) (String.◌∷◌ c s) = String.◌∷◌ c (clip n s)

-- `separator.join(texts)`
abbrev pub join : String → List String → String
join separator [] = String.[]
join separator (s ∷ []) = s
join separator (s ∷ t ∷ ts) = append s (append separator (join separator (t ∷ ts)))

abbrev push_char : Char → List String → List String
push_char c [] = String.◌∷◌ c String.[] ∷ []
push_char c (s ∷ ss) = String.◌∷◌ c s ∷ ss

-- `str(n)` for a natural number, up to the number of digits in `fuel`; `n + 1` is enough.
abbrev digit : ℕ → String
digit n = slice "0123456789" n (n + 1)

abbrev decimal_from : (fuel : ℕ) → ℕ → String
decimal_from zero n = String.[]
decimal_from (suc fuel) n = elim (ltb n 10) [
  | true ↦ digit n
  | false ↦ append (decimal_from fuel (n / 10)) (digit (n % 10))
]

abbrev pub decimal : ℕ → String
decimal n = decimal_from (n + 1) n

-- `text.split(separator)` for a separator of one character, given by its code.
unfoldable pub split : ℕ → String → List String
split separator String.[] = String.[] ∷ []
split separator (String.◌∷◌ c s) =
    let rest = split separator s in
    if code c == separator then String.[] ∷ rest else push_char c rest

pub chars-clip : (n : ℕ) (s : String) → chars (clip n s) ≤ n
unfolding clip
chars-clip zero s = omega (arith, length-nil)
chars-clip (suc n) String.[] = omega (arith, length-nil)
chars-clip (suc n) (String.◌∷◌ c s) = omega (arith, length-cons c (clip n s), chars-clip n s)

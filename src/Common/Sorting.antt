-- ===== src/Common/Sorting.antt =====
-- Python's `sorted`: a stable sort by a Boolean order.
use Prim.Native.Nat.{ℕ, ◌≤◌}
use mathlib.Core.Path.{◌≡◌, refl}
use mathlib.Core.Logic.{inl, inr}
use mathlib.Core.Bool.{Bool, true, false}
use mathlib.Core.List.{List, [], ◌∷◌}
use native.Mathlib.Omega.{arith}
use legacy_doc.Common.Tests.{if◌then◌else◌, Bool-cases}
use legacy_doc.Common.Lists.{All, count}

abbrev pub IsAscending {ℓ} : {A : Type ℓ} → (A → ℕ) → List A → Type 0
IsAscending key [] = Unit
IsAscending key (x ∷ xs) = All (λ y. key x ≤ key y) xs × IsAscending key xs

module _ {ℓ} {A : Type ℓ} (le : A → A → Bool) where
  -- Before the first element that does not come before `x`.
  abbrev pub insert_sorted : A → List A → List A
  insert_sorted x [] = x ∷ []
  insert_sorted x (y ∷ ys) = if le x y then x ∷ y ∷ ys else y ∷ insert_sorted x ys

  unfoldable pub sorted : List A → List A
  sorted [] = []
  sorted (x ∷ xs) = insert_sorted x (sorted xs)

  count-insert_sorted :
      (p : A → Bool) (x : A) (xs : List A) → count p (insert_sorted x xs) ≡ count p (x ∷ xs)
  count-insert_sorted p x [] = refl
  count-insert_sorted p x (y ∷ ys) = ground (arith, count-insert_sorted p x ys)

  -- Sorting keeps the number of elements of each kind.
  pub count-sorted : (p : A → Bool) (xs : List A) → count p (sorted xs) ≡ count p xs
  unfolding sorted
  count-sorted p [] = refl
  count-sorted p (x ∷ xs) = ground (arith, count-insert_sorted p x (sorted xs), count-sorted p xs)

  All-insert_sorted :
      (P : A → Type 0) (x : A) (xs : List A) → P x → All P xs → All P (insert_sorted x xs)
  All-insert_sorted P x [] h k = (h, tt)
  All-insert_sorted P x (y ∷ ys) h k = elim (Bool-cases (le x y)) [
    | inl e ↦ rw e (h, k)
    | inr e ↦ rw e (k.0, All-insert_sorted P x ys h k.1)
  ]

  pub All-sorted : (P : A → Type 0) (xs : List A) → All P xs → All P (sorted xs)
  unfolding sorted
  All-sorted P [] h = tt
  All-sorted P (x ∷ xs) h = All-insert_sorted P x (sorted xs) h.0 (All-sorted P xs h.1)

  -- The key that the order compares first.
  module _ (key : A → ℕ) (le_key : (x y : A) → le x y ≡ true → key x ≤ key y)
      (not_le_key : (x y : A) → le x y ≡ false → key y ≤ key x) where
    All-above : (m n : ℕ) (ys : List A) → m ≤ n → All (λ z. n ≤ key z) ys → All (λ z. m ≤ key z) ys
    All-above m n [] h k = tt
    All-above m n (z ∷ ys) h k = (omega (arith, h, k.0), All-above m n ys h k.1)

    insert_sorted-IsAscending :
        (x : A) (xs : List A) → IsAscending key xs → IsAscending key (insert_sorted x xs)
    insert_sorted-IsAscending x [] s = (tt, tt)
    insert_sorted-IsAscending x (y ∷ ys) s = elim (Bool-cases (le x y)) [
      | inl e ↦ rw e ((le_key x y e, All-above (key x) (key y) ys (le_key x y e) s.0), s)
      | inr e ↦ rw e (
        All-insert_sorted (λ z. key y ≤ key z) x ys (not_le_key x y e) s.0,
        insert_sorted-IsAscending x ys s.1,
      )
    ]

    -- A sorted list ascends by the key.
    pub sorted-IsAscending : (xs : List A) → IsAscending key (sorted xs)
    unfolding sorted
    sorted-IsAscending [] = tt
    sorted-IsAscending (x ∷ xs) = insert_sorted-IsAscending x (sorted xs) (sorted-IsAscending xs)

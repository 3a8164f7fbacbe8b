-- ===== src/Common/Lists.antt =====
-- Lists measured by native numbers, predicates on their elements, and tables of rows.
use Prim.Native.Nat.{ℕ, zero, suc, ◌+◌, ◌≤◌}
use mathlib.Core.Path.{◌≡◌, sym, ap, ◌∙◌, subst}
use mathlib.Core.Logic.{◌⊎◌, inl, inr}
use mathlib.Core.Bool.{Bool, true, false, not}
use mathlib.Core.Option.{Option, none, some}
use mathlib.Core.List.{List, [], ◌∷◌, ◌++◌, map}
use native.Mathlib.Omega.{arith}
use legacy_doc.Common.Tests.{if◌then◌else◌, if_true, if_false, Bool-cases, some_inj, some≢none}

module _ {ℓ} {A : Type ℓ} where
  abbrev pub length : List A → ℕ
  length [] = 0
  length (x ∷ xs) = suc (length xs)

  abbrev pub take : ℕ → List A → List A
  take zero xs = []
  take (suc n) [] = []
  take (suc n) (x ∷ xs) = x ∷ take n xs

  pub length-append : (xs ys : List A) → length (xs ++ ys) ≡ length xs + length ys
  length-append [] ys = omega arith
  length-append (x ∷ xs) ys = omega (arith, length-append xs ys)

  pub length-take : (n : ℕ) (xs : List A) → length (take n xs) ≤ n
  length-take zero xs = omega arith
  length-take (suc n) [] = omega arith
  length-take (suc n) (x ∷ xs) = omega (arith, length-take n xs)

  -- The elements that pass a Boolean test, in order.
  abbrev pub keep : (A → Bool) → List A → List A
  keep p [] = []
  keep p (x ∷ xs) = if p x then x ∷ keep p xs else keep p xs

  abbrev pub any : (A → Bool) → List A → Bool
  any p [] = false
  any p (x ∷ xs) = if p x then true else any p xs

  -- How many rows pass a test: `rowcount`, `count(*)`.
  abbrev pub count : (A → Bool) → List A → ℕ
  count p [] = 0
  count p (x ∷ xs) = (if p x then 1 else 0) + count p xs

module _ {A : Type 0} where
  abbrev pub In : A → List A → Type 0
  In x [] = ⊥
  In x (y ∷ ys) = (x ≡ y) ⊎ In x ys

module _ {ℓ κ} {A : Type ℓ} where
  -- Every element satisfies the predicate.
  abbrev pub All : (A → Type κ) → List A → Type κ
  All P [] = Unit
  All P (x ∷ xs) = P x × All P xs

pub All-imp {ℓ κ μ} :
    {A : Type ℓ} (P : A → Type κ) (Q : A → Type μ) (xs : List A)
    → ((a : A) → P a → Q a)
    → All P xs
    → All Q xs
All-imp P Q [] f h = tt
All-imp P Q (x ∷ xs) f h = (f x h.0, All-imp P Q xs f h.1)

module _ {ℓ} {A : Type ℓ} where
  -- `SELECT … WHERE …`, the first row.
  abbrev pub find_where : (A → Bool) → List A → Option A
  find_where p [] = none
  find_where p (x ∷ xs) = if p x then some x else find_where p xs

  -- `UPDATE … SET … WHERE …`
  abbrev pub alter_where : (A → Bool) → (A → A) → List A → List A
  alter_where p f [] = []
  alter_where p f (x ∷ xs) = (if p x then f x else x) ∷ alter_where p f xs

module _ {ℓ} {A : Type ℓ} where
  -- The row that a search finds, once it has been replaced.
  pub find-alter :
      (p q : A → Bool) (x y : A) (xs : List A)
      → find_where p xs ≡ some x
      → q x ≡ true
      → p y ≡ true
      → find_where p (alter_where q (λ _. y) xs) ≡ some y
  find-alter p q x y [] h a b = absurd (some≢none (sym h))
  find-alter p q x y (z ∷ xs) h a b =
      let rest = find_where p (alter_where q (λ _. y) xs) in
      let head = λ (w : A). (if p w then some w else rest) ≡ some y in
      let found : head y = if_true (p y) (some y) rest b in
      elim (Bool-cases (p z)) [
        | inl e ↦
            let same : z ≡ x = some_inj (sym (if_true (p z) (some z) (find_where p xs) e) ∙ h) in
            subst head (sym (if_true (q z) y z (ap q same ∙ a))) found
        | inr e ↦ elim (Bool-cases (q z)) [
          | inl f ↦ subst head (sym (if_true (q z) y z f)) found
          | inr f ↦ subst head (sym (if_false (q z) y z f)) (
              if_false (p z) (some z) rest e
              ∙ find-alter p q x y xs (sym (if_false (p z) (some z) (find_where p xs) e) ∙ h) a b)
        ]
      ]

  pub find-holds : (p : A → Bool) (x : A) (xs : List A) → find_where p xs ≡ some x → p x ≡ true
  find-holds p x [] h = absurd (some≢none (sym h))
  find-holds p x (z ∷ xs) h = elim (Bool-cases (p z)) [
    | inl e ↦
        subst (λ w. p w ≡ true) (some_inj (sym (if_true (p z) (some z) (find_where p xs) e) ∙ h)) e
    | inr e ↦ find-holds p x xs (sym (if_false (p z) (some z) (find_where p xs) e) ∙ h)
  ]

  pub any-find :
      (p q : A → Bool) (y : A) (xs : List A)
      → any p xs ≡ false
      → find_where q xs ≡ some y
      → p y ≡ false
  any-find p q y [] n h = absurd (some≢none (sym h))
  any-find p q y (z ∷ xs) n h = elim (Bool-cases (p z)) [
    | inl f ↦ absurd (ground (arith, sym (if_true (p z) true (any p xs) f) ∙ n))
    | inr f ↦ elim (Bool-cases (q z)) [
      | inl e ↦
          subst (λ w. p w ≡ false) (some_inj (sym (if_true (q z) (some z) (find_where q xs) e) ∙ h))
            f
      | inr e ↦
          any-find p q y xs (sym (if_false (p z) true (any p xs) f) ∙ n)
            (sym (if_false (q z) (some z) (find_where q xs) e) ∙ h)
    ]
  ]

module _ {A : Type 0} where
  pub In-append_left : (x : A) (xs ys : List A) → In x xs → In x (xs ++ ys)
  In-append_left x [] ys h = elim h [ ]
  In-append_left x (z ∷ xs) ys (inl e) = inl e
  In-append_left x (z ∷ xs) ys (inr h) = inr (In-append_left x xs ys h)

  pub In-append_right : (x : A) (xs ys : List A) → In x ys → In x (xs ++ ys)
  In-append_right x [] ys h = h
  In-append_right x (z ∷ xs) ys h = inr (In-append_right x xs ys h)

pub All-join {ℓ κ} :
    {A : Type ℓ} (P : A → Type κ) (xs ys : List A) → All P xs → All P ys → All P (xs ++ ys)
All-join P [] ys h k = k
All-join P (x ∷ xs) ys h k = (h.0, All-join P xs ys h.1 k)

pub All-map {ℓ κ μ} :
    {A : Type ℓ} {B : Type κ} (P : A → Type μ) (Q : B → Type μ) (f : A → B) (xs : List A)
    → ((a : A) → P a → Q (f a))
    → All P xs
    → All Q (map f xs)
All-map P Q f [] g h = tt
All-map P Q f (x ∷ xs) g h = (g x h.0, All-map P Q f xs g h.1)

pub All-keep {ℓ κ} :
    {A : Type ℓ} (P : A → Type κ) (p : A → Bool) (xs : List A) → All P xs → All P (keep p xs)
All-keep P p [] h = tt
All-keep P p (x ∷ xs) h = elim (Bool-cases (p x)) [
  | inl e ↦ rw e (h.0, All-keep P p xs h.1)
  | inr e ↦ rw e (All-keep P p xs h.1)
]

pub All-find {ℓ κ} :
    {A : Type ℓ} (P : A → Type κ) (p : A → Bool) (x : A) (xs : List A)
    → All P xs
    → find_where p xs ≡ some x
    → P x
All-find P p x [] h e = absurd (some≢none (sym e))
All-find P p x (z ∷ xs) h e = elim (Bool-cases (p z)) [
  | inl f ↦ subst P (some_inj (sym (if_true (p z) (some z) (find_where p xs) f) ∙ e)) h.0
  | inr f ↦ All-find P p x xs h.1 (sym (if_false (p z) (some z) (find_where p xs) f) ∙ e)
]

pub In-All {κ} : {A : Type 0} (P : A → Type κ) (x : A) (xs : List A) → In x xs → All P xs → P x
In-All P x [] h k = elim h [ ]
In-All P x (z ∷ xs) (inl e) k = subst P (sym e) k.0
In-All P x (z ∷ xs) (inr h) k = In-All P x xs h k.1

pub count-split {ℓ} :
    {A : Type ℓ} (p : A → Bool) (xs : List A) → count p xs + count (λ x. not (p x)) xs ≡ length xs
count-split p [] = omega arith
count-split p (x ∷ xs) = ground (arith, count-split p xs)

pub All-parts {ℓ κ} :
    {A : Type ℓ} (P : A → Type κ) (xs ys : List A) → All P (xs ++ ys) → All P xs × All P ys
All-parts P [] ys h = (tt, h)
All-parts P (x ∷ xs) ys h = let rest = All-parts P xs ys h.1 in ((h.0, rest.0), rest.1)

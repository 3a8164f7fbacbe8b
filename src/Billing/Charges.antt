-- ===== src/Billing/Charges.antt =====
-- What a settlement takes from the credits.
use legacy_doc.Common.{
  ℕ, ◌+◌, ◌-◌, ◌≤◌, ◌≡◌, min, refl, sym, ap, ◌∙◌, subst, Bool, false, ◌&&◌, Bool-cases, inl, inr,
  List, [], ◌∷◌, ◌==◌, ltb, if◌then◌else◌, arith, keep, count, All, All-keep,
}
use legacy_doc.Common.Sorting.{sorted, count-sorted, All-sorted}
use legacy_doc.Billing.{Moment, is_earlier}
use legacy_doc.Billing.Settlement.{
  CreditGrant, Ledger, expires_first, active_grants, take_from, charge, pending_of, settle_overflow,
  total_remaining,
}

-- The identifiers of the grants are distinct.
abbrev pub AreDistinct : List CreditGrant → Type 0
AreDistinct gs = (i : ℕ) → count (λ g. g.id == i) gs ≤ 1

abbrev remaining_of : ℕ → List CreditGrant → ℕ
remaining_of i [] = 0
remaining_of i (g ∷ gs) = if g.id == i then g.remaining_usd else remaining_of i gs

AreDistinct-tail : (g : CreditGrant) (gs : List CreditGrant) → AreDistinct (g ∷ gs) → AreDistinct gs
AreDistinct-tail g gs d i = ground (arith, d i)

absent :
    (g : CreditGrant) (gs : List CreditGrant)
    → AreDistinct (g ∷ gs)
    → count (λ h. h.id == g.id) gs ≡ 0
absent g gs d = ground (arith, d g.id)

take_from_absent :
    (i k : ℕ) (gs : List CreditGrant) → count (λ h. h.id == i) gs ≡ 0 → take_from i k gs ≡ gs
take_from_absent i k [] h = refl
take_from_absent i k (g ∷ gs) h = elim (Bool-cases (g.id == i)) [
  | inl e ↦ absurd (ground (arith, e, h))
  | inr e ↦ rw e (ap (λ t. g ∷ t) (take_from_absent i k gs (ground (arith, e, h))))
]

total-take_from :
    (i k : ℕ) (gs : List CreditGrant)
    → AreDistinct gs
    → k ≤ remaining_of i gs
    → total_remaining (take_from i k gs) + k ≡ total_remaining gs
total-take_from i k [] d h = omega (arith, h)
total-take_from i k (g ∷ gs) d h = elim (Bool-cases (g.id == i)) [
  | inl e ↦
      let none_left : count (λ x. x.id == i) gs ≡ 0 = ground (arith, e, d i) in
      let same = ap total_remaining (take_from_absent i k gs none_left) in
      let bound : k ≤ g.remaining_usd =
        subst (λ b. k ≤ (if b then g.remaining_usd else remaining_of i gs)) e h in
      rw e (omega (arith, same, bound))
  | inr e ↦
      let bound : k ≤ remaining_of i gs =
        subst (λ b. k ≤ (if b then g.remaining_usd else remaining_of i gs)) e h in
      let rest = total-take_from i k gs (AreDistinct-tail g gs d) bound in
      rw e (omega (arith, rest))
]

take_from-AreDistinct :
    (i k : ℕ) (gs : List CreditGrant) → AreDistinct gs → AreDistinct (take_from i k gs)
take_from-AreDistinct i k gs d j = subst (λ n. n ≤ 1) (sym (same gs)) (d j)
  where
    same :
        (hs : List CreditGrant)
        → count (λ g. g.id == j) (take_from i k hs) ≡ count (λ g. g.id == j) hs
    same [] = refl
    same (h ∷ hs) = ground (arith, same hs)

remaining_of-take_from :
    (i j k : ℕ) (gs : List CreditGrant)
    → (j == i) ≡ false
    → remaining_of j (take_from i k gs) ≡ remaining_of j gs
remaining_of-take_from i j k [] h = refl
remaining_of-take_from i j k (g ∷ gs) h = ground (arith, h, remaining_of-take_from i j k gs h)

-- The active grants as they stand in the table.
abbrev Stand : List CreditGrant → List CreditGrant → Type 0
Stand table = All (λ g. g.remaining_usd ≡ remaining_of g.id table)

take_from-Stand :
    (i k : ℕ) (table active : List CreditGrant)
    → count (λ g. g.id == i) active ≡ 0
    → Stand table active
    → Stand (take_from i k table) active
take_from-Stand i k table [] c s = tt
take_from-Stand i k table (g ∷ gs) c s =
    let other : (g.id == i) ≡ false = ground (arith, c) in
    (
      s.0 ∙ sym (remaining_of-take_from i g.id k table other),
      take_from-Stand i k table gs (ground (arith, c)) s.1,
    )

charge-total :
    (pending : ℕ) (active table : List CreditGrant)
    → AreDistinct table
    → AreDistinct active
    → Stand table active
    → total_remaining (charge pending active table) + min pending (total_remaining active)
      ≡ total_remaining table
charge-total pending [] table d a s = omega arith
charge-total pending (g ∷ gs) table d a s = elim (Bool-cases (pending == 0)) [
  | inl e ↦ let zero_left : pending ≡ 0 = ground (arith, e) in rw e (omega (arith, zero_left))
  | inr e ↦
      let k = min g.remaining_usd pending in
      let table' = take_from g.id k table in
      let rest =
        charge-total (pending - k) gs table' (take_from-AreDistinct g.id k table d)
          (AreDistinct-tail g gs a) (take_from-Stand g.id k table gs (absent g gs a) s.1) in
      let one = total-take_from g.id k table d (omega (arith, s.0)) in
      rw e (omega (arith, rest, one))
]

keep-AreDistinct :
    (p : CreditGrant → Bool) (gs : List CreditGrant) → AreDistinct gs → AreDistinct (keep p gs)
keep-AreDistinct p gs d i = omega (arith, fewer gs, d i)
  where
    fewer : (hs : List CreditGrant) → count (λ g. g.id == i) (keep p hs) ≤ count (λ g. g.id == i) hs
    fewer [] = omega arith
    fewer (h ∷ hs) = ground (arith, fewer hs)

sorted-AreDistinct :
    (le : CreditGrant → CreditGrant → Bool) (gs : List CreditGrant)
    → AreDistinct gs
    → AreDistinct (sorted le gs)
sorted-AreDistinct le gs d i = subst (λ n. n ≤ 1) (sym (count-sorted le (λ g. g.id == i) gs)) (d i)

-- A row in front of a table of which no row has its identifier.
in_front-Stand :
    (g : CreditGrant) (table active : List CreditGrant)
    → count (λ h. h.id == g.id) active ≡ 0
    → Stand table active
    → Stand (g ∷ table) active
in_front-Stand g table [] c s = tt
in_front-Stand g table (h ∷ hs) c s =
    let other : (g.id == h.id) ≡ false = ground (arith, c) in
    (s.0 ∙ ground (arith, other), in_front-Stand g table hs (ground (arith, c)) s.1)

Stand-self : (gs : List CreditGrant) → AreDistinct gs → Stand gs gs
Stand-self [] d = tt
Stand-self (g ∷ gs) d =
    (ground arith, in_front-Stand g gs gs (absent g gs d) (Stand-self gs (AreDistinct-tail g gs d)))

active_grants-AreDistinct :
    (user_id : ℕ) (now : Moment) (gs : List CreditGrant)
    → AreDistinct gs
    → AreDistinct (active_grants user_id now gs)
unfolding active_grants
active_grants-AreDistinct user_id now gs d =
    let own = λ (g : CreditGrant). g.user_id == user_id && ltb 0 g.remaining_usd in
    keep-AreDistinct (λ g. is_earlier now g.expires_at) (sorted expires_first (keep own gs))
      (sorted-AreDistinct expires_first (keep own gs) (keep-AreDistinct own gs d))

active_grants-Stand :
    (user_id : ℕ) (now : Moment) (gs : List CreditGrant)
    → AreDistinct gs
    → Stand gs (active_grants user_id now gs)
unfolding active_grants
active_grants-Stand user_id now gs d =
    let own = λ (g : CreditGrant). g.user_id == user_id && ltb 0 g.remaining_usd in
    let P = λ (g : CreditGrant). g.remaining_usd ≡ remaining_of g.id gs in
    All-keep P (λ g. is_earlier now g.expires_at) (sorted expires_first (keep own gs))
      (All-sorted expires_first P (keep own gs) (All-keep P own gs (Stand-self gs d)))

-- A settlement takes from the credits exactly what is pending, as far as the active credits of the
-- user reach: no cent is lost or charged beyond that, over the whole table of credits.
pub settle_overflow_conserves :
    (user_id plan_ceiling_usd : ℕ) (now : Moment) (l : Ledger)
    → AreDistinct l.grants
    → total_remaining (settle_overflow user_id plan_ceiling_usd now l).grants
        + min
            (pending_of user_id plan_ceiling_usd now l)
            (total_remaining (active_grants user_id now l.grants))
      ≡ total_remaining l.grants
unfolding settle_overflow
settle_overflow_conserves user_id plan_ceiling_usd now l d =
    let pending = pending_of user_id plan_ceiling_usd now l in
    elim (Bool-cases (pending == 0)) [
      | inl e ↦ let zero_left : pending ≡ 0 = ground (arith, e) in rw e (omega (arith, zero_left))
      | inr e ↦ rw e (
          charge-total pending (active_grants user_id now l.grants) l.grants d
            (active_grants-AreDistinct user_id now l.grants d)
            (active_grants-Stand user_id now l.grants d))
    ]

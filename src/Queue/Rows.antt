-- ===== src/Queue/Rows.antt =====
-- Lemmas on tables of jobs: lookup by identifier, updates of the rows that pass a test, and
-- distinct identifiers.
pub use legacy_doc.Common.{In}
use legacy_doc.Common.{
  ℕ, ◌≡◌, refl, ◌⊎◌, subst, sym, ap, ◌∙◌, inl, inr, Bool, true, false, ◌&&◌, none, some, [], ◌∷◌,
  ◌++◌, arith, ◌==◌, if◌then◌else◌, any, count, All, keep, Bool-cases, some_inj, Option-cases, ◌&&◌,
}
use mathlib.Core.Option
use legacy_doc.Jobs.{Job, Table}
use legacy_doc.Queue.{map_where, get_job}

abbrev pub has_id : ℕ → Job → Bool
has_id i j = j.id == i

-- No identifier stands twice, as the primary key demands.
abbrev pub Distinct : Table → Type 0
Distinct [] = Unit
Distinct (j ∷ t) = (any (has_id j.id) t ≡ false) × Distinct t

-- A row-wise predicate survives an update whose written rows satisfy it.
pub All-map_where {ℓ} :
    (P : Job → Type ℓ) (p : Job → Bool) (f : Job → Job) (t : Table)
    → ((j : Job) → p j ≡ true → P j → P (f j))
    → All P t
    → All P (map_where p f t)
All-map_where P p f [] keep h = tt
All-map_where P p f (j ∷ t) keep h = (head (Bool-cases (p j)), All-map_where P p f t keep h.1)
  where
    head : (p j ≡ true) ⊎ (p j ≡ false) → P (if p j then f j else j)
    head (inl e) = rw e (keep j e h.0)
    head (inr e) = rw e h.0

pub All-append {ℓ} : (P : Job → Type ℓ) (t : Table) (j : Job) → All P t → P j → All P (t ++ j ∷ [])
All-append P [] j h p = (p, tt)
All-append P (k ∷ t) j h p = (h.0, All-append P t j h.1 p)

pub All-get_job {ℓ} :
    (P : Job → Type ℓ) (i : ℕ) (t : Table) {j : Job} → All P t → get_job i t ≡ some j → P j
All-get_job P i [] h e = cc
All-get_job P i (k ∷ t) {j = j} h e = elim (Bool-cases (k.id == i)) [
  | inl same ↦ subst P (ground (arith, same, e)) h.0
  | inr other ↦ All-get_job P i t h.1 (ground (arith, other, e))
]

-- The updates of the queue never write an identifier.
abbrev pub KeepsId : (Job → Job) → Type 0
KeepsId f = (j : Job) → (f j).id ≡ j.id

pub any-map_where :
    (i : ℕ) (p : Job → Bool) (f : Job → Job) (t : Table)
    → KeepsId f
    → any (has_id i) (map_where p f t) ≡ any (has_id i) t
any-map_where i p f [] k = refl
any-map_where i p f (j ∷ t) k = ground (arith, k j, any-map_where i p f t k)

pub Distinct-map_where :
    (p : Job → Bool) (f : Job → Job) (t : Table)
    → KeepsId f
    → Distinct t
    → Distinct (map_where p f t)
Distinct-map_where p f [] k h = tt
Distinct-map_where p f (j ∷ t) k h =
    (ground (arith, k j, any-map_where j.id p f t k), Distinct-map_where p f t k h.1)

-- The row of an identifier after an update is the row before it, rewritten if it passes the test.
pub get_job-map_where :
    (i : ℕ) (p : Job → Bool) (f : Job → Job) (t : Table)
    → KeepsId f
    → get_job i (map_where p f t)
      ≡ elim (get_job i t) [ none ↦ none | some j ↦ some (if p j then f j else j) ]
get_job-map_where i p f [] k = refl
get_job-map_where i p f (j ∷ t) k = ground (arith, k j, get_job-map_where i p f t k)

-- A row stands in the table.
In-any : (c : Job) (t : Table) → In c t → any (has_id c.id) t ≡ true
In-any c [] h = absurd h
In-any c (j ∷ t) (inl e) = ground arith
In-any c (j ∷ t) (inr h) = ground (arith, In-any c t h)

-- With distinct identifiers a row is found by its own.
pub get_job-In : (c : Job) (t : Table) → Distinct t → In c t → get_job c.id t ≡ some c
get_job-In c [] d h = absurd h
get_job-In c (j ∷ t) d (inl e) = ground arith
get_job-In c (j ∷ t) d (inr h) = ground (arith, In-any c t h, get_job-In c t d.1 h)

pub In-keep : (p : Job → Bool) (c : Job) (t : Table) → In c (keep p t) → In c t × (p c ≡ true)
In-keep p c [] h = absurd h
In-keep p c (j ∷ t) h = elim (Bool-cases (p j)) [
  | inl e ↦ elim (subst (λ b. In c (if b then j ∷ keep p t else keep p t)) e h) [
    | inl same ↦ (inl same, ap p same ∙ e)
    | inr later ↦ let (m, q) = In-keep p c t later in (inr m, q)
  ]
  | inr e ↦
      let (m, q) = In-keep p c t (subst (λ b. In c (if b then j ∷ keep p t else keep p t)) e h) in
      (inr m, q)
]

pub All-In {ℓ} : (P : Job → Type ℓ) (c : Job) (t : Table) → All P t → In c t → P c
All-In P c [] h m = absurd m
All-In P c (j ∷ t) h (inl e) = subst P (sym e) h.0
All-In P c (j ∷ t) h (inr m) = All-In P c t h.1 m

map_where-absent :
    (i : ℕ) (f : Job → Job) (t : Table)
    → any (has_id i) t ≡ false
    → map_where (λ j. j.id == i) f t ≡ t
map_where-absent i f [] h = refl
map_where-absent i f (j ∷ t) h = ground (arith, map_where-absent i f t)

-- An update of one identifier keeps a row-wise predicate if it keeps it at the row found.
pub All-map_id {ℓ} :
    (P : Job → Type ℓ) (i : ℕ) (f : Job → Job) (t : Table)
    → Distinct t
    → All P t
    → ((j : Job) → get_job i t ≡ some j → P j → P (f j))
    → All P (map_where (λ j. j.id == i) f t)
All-map_id P i f [] d h k = tt
All-map_id P i f (j ∷ t) d h k = elim (Bool-cases (j.id == i)) [
  | inl e ↦ (
    rw e (k j (rw e) h.0),
    subst (All P) (sym (map_where-absent i f t (ground (arith, e, d.0)))) h.1,
  )
  | inr e ↦ (rw e h.0, All-map_id P i f t d.1 h.1 (λ j' e'. k j' (rw e e')))
]

pub get_job-id : (i : ℕ) (t : Table) {j : Job} → get_job i t ≡ some j → j.id ≡ i
get_job-id i [] h = cc
get_job-id i (k ∷ t) {j = j} h = ground (arith, get_job-id i t {j = j})

-- After an update of one identifier, that identifier's row is the written one and every other
-- identifier's row is as before.
pub get_job-map_id :
    (i k : ℕ) (f : Job → Job) (t : Table)
    → KeepsId f
    → get_job i (map_where (λ j. j.id == k) f t)
      ≡ (if i == k then Option.map f (get_job i t) else get_job i t)
get_job-map_id i k f [] h = ground arith
get_job-map_id i k f (j ∷ t) h = ground (arith, h j, get_job-map_id i k f t h)

any-append-none :
    (i : ℕ) (t : Table) (j : Job)
    → any (has_id i) t ≡ false
    → has_id i j ≡ false
    → any (has_id i) (t ++ j ∷ []) ≡ false
any-append-none i [] j h n = ground arith
any-append-none i (k ∷ t) j h n = ground (arith, any-append-none i t j)

any-get_job : (i : ℕ) (t : Table) → get_job i t ≡ none → any (has_id i) t ≡ false
any-get_job i [] h = refl
any-get_job i (k ∷ t) h = ground (arith, any-get_job i t)

get_job-tail :
    (i : ℕ) (k : Job) (t : Table)
    → get_job i (k ∷ t) ≡ none
    → (get_job i t ≡ none) × (has_id i k ≡ false)
get_job-tail i k t h = ground arith

-- A row with an identifier that the table lacks keeps the identifiers distinct.
pub Distinct-append :
    (i : ℕ) (t : Table) (j : Job)
    → Distinct t
    → j.id ≡ i
    → get_job i t ≡ none
    → Distinct (t ++ j ∷ [])
Distinct-append i [] j d e h = (refl, tt)
Distinct-append i (k ∷ t) j d e h =
    let (later, other) = get_job-tail i k t h in
    (any-append-none k.id t j d.0 (ground (arith, e, other)), Distinct-append i t j d.1 e later)

pub map_where-none :
    (p : Job → Bool) (f : Job → Job) (t : Table) → count p t ≡ 0 → map_where p f t ≡ t
map_where-none p f [] h = refl
map_where-none p f (j ∷ t) h = elim (Bool-cases (p j)) [
  | inl e ↦ absurd (ground (arith, e))
  | inr e ↦ rw e (ap (λ u. j ∷ u) (map_where-none p f t (ground (arith, e))))
]

-- A test that holds of rows of one identifier alone.
abbrev pub OnlyAt : ℕ → (Job → Bool) → Type 0
OnlyAt i p = (k : Job) → (k.id == i) ≡ false → p k ≡ false

count-absent :
    (i : ℕ) (p : Job → Bool) (t : Table) → OnlyAt i p → any (has_id i) t ≡ false → count p t ≡ 0
count-absent i p [] o h = refl
count-absent i p (k ∷ t) o h = ground (arith, o k, count-absent i p t o)

-- Such a test holds of at most one row, the one that is found by the identifier.
pub count-OnlyAt :
    (i : ℕ) (p : Job → Bool) (t : Table) {j : Job}
    → OnlyAt i p
    → Distinct t
    → get_job i t ≡ some j
    → count p t ≡ (if p j then 1 else 0)
count-OnlyAt i p [] o d h = cc
count-OnlyAt i p (k ∷ t) {j = j} o d h = elim (Bool-cases (k.id == i)) [
  | inl e ↦
      let same : k ≡ j = some_inj (rw e at h) in
      let gone =
        count-absent i p t o (subst (λ x. any (has_id x) t ≡ false) (ground (arith, e)) d.0) in
      subst (λ x. count p (k ∷ t) ≡ (if p x then 1 else 0)) same (ground (arith, gone))
  | inr e ↦ ground (arith, e, o k, count-OnlyAt i p t {j = j} o d.1)
]

pub count-missing :
    (i : ℕ) (p : Job → Bool) (t : Table) → OnlyAt i p → get_job i t ≡ none → count p t ≡ 0
count-missing i p t o h = count-absent i p t o (any-get_job i t h)

-- An update of one identifier's row: that row is rewritten if it passes the test, and every other row
-- is as before.
pub get_job-OnlyAt :
    (i k : ℕ) (p : Job → Bool) (f : Job → Job) (t : Table) {j : Job}
    → KeepsId f
    → OnlyAt i p
    → get_job i t ≡ some j
    → get_job k (map_where p f t) ≡ (if k == i && p j then some (f j) else get_job k t)
get_job-OnlyAt i k p f t {j = j} keeps o h = elim (Bool-cases (k == i)) [
  | inl e ↦
      let same : k ≡ i = ground (arith, e) in
      get_job-map_where k p f t keeps ∙ ground (arith, e, ap (λ x. get_job x t) same ∙ h)
  | inr e ↦ elim (Option-cases (get_job k t)) [
    | inl q ↦ get_job-map_where k p f t keeps ∙ ground (arith, e, q)
    | inr (l, q) ↦
        get_job-map_where k p f t keeps ∙ ground (arith, e, q, o l, get_job-id k t {j = l} q)
  ]
]

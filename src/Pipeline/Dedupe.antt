-- ===== src/Pipeline/Dedupe.antt =====
-- `_dedupe_symbols` against its description: one entry for each name and parent, the longest.
use legacy_doc.Common.{
  ℕ, ◌≤◌, arith, min, max, some_inj, some≢none, ◌≡◌, refl, sym, ap, ◌∙◌, true, false, ◌&&◌,
  Bool-cases, inl, inr, Option, some, none, List, [], ◌∷◌, String, str_eq, eq_iff, ltb,
  if◌then◌else◌, if_true, if_false, chars, All, All-imp, count, find_where,
}
use legacy_doc.Common.Sorting.{sorted, IsAscending, sorted-IsAscending, count-sorted, All-sorted}
use legacy_doc.Domain.{SymbolDoc}
use legacy_doc.Pipeline.{same_text, same_key, longer, put_best, best_of, symbol_le, dedupe_symbols}

same_text-eq : (a b : Option String) → same_text a b ≡ true → a ≡ b
same_text-eq none none h = refl
same_text-eq none (some b) h = ground (arith, h)
same_text-eq (some a) none h = ground (arith, h)
same_text-eq (some a) (some b) h = ap some ((eq_iff a b).0 h)

-- Two symbols have the same key exactly when every symbol compares with them alike.
same_key-swap : (a b k : SymbolDoc) → same_key a b ≡ true → same_key a k ≡ same_key b k
same_key-swap a b k h =
    let n : a.name ≡ b.name = (eq_iff a.name b.name).0 (ground (arith, h)) in
    let p : a.parent ≡ b.parent = same_text-eq a.parent b.parent (ground (arith, h)) in
    ap (λ m. str_eq m k.name && same_text a.parent k.parent) n
    ∙ ap (λ q. str_eq b.name k.name && same_text q k.parent) p

str_eq_refl : (s : String) → str_eq s s ≡ true
str_eq_refl s = (eq_iff s s).1 refl

same_text_refl : (a : Option String) → same_text a a ≡ true
same_text_refl none = refl
same_text_refl (some a) = str_eq_refl a

same_key_refl : (a : SymbolDoc) → same_key a a ≡ true
same_key_refl a = ground (arith, str_eq_refl a.name, same_text_refl a.parent)

same_key-join :
    (c x k : SymbolDoc) → same_key x k ≡ true → same_key c k ≡ true → same_key c x ≡ true
same_key-join c x k h g = same_key-swap c k x g ∙ sym (same_key-swap x k x h) ∙ same_key_refl x

-- The longest description among the symbols with the key of `k`, the first of them on a tie.
abbrev longest : Option SymbolDoc → SymbolDoc → Option SymbolDoc
longest none x = some x
longest (some c) x = some (if ltb (chars c.description) (chars x.description) then x else c)

abbrev pub best_for : SymbolDoc → Option SymbolDoc → List SymbolDoc → Option SymbolDoc
best_for k best [] = best
best_for k best (x ∷ xs) = best_for k (if same_key x k then longest best x else best) xs

-- No symbol with the key of `d` has a longer description.
abbrev pub IsLongest : List SymbolDoc → SymbolDoc → Type 0
IsLongest xs d = All (λ s. same_key s d ≡ true → chars s.description ≤ chars d.description) xs

-- What is found is no shorter than what there was before.
best_for-grows :
    (k c d : SymbolDoc) (xs : List SymbolDoc)
    → best_for k (some c) xs ≡ some d
    → chars c.description ≤ chars d.description
best_for-grows k c d [] h = omega (arith, ap (λ s. chars s.description) (some_inj h))
best_for-grows k c d (x ∷ xs) h = elim (Bool-cases (same_key x k)) [
  | inr e ↦ best_for-grows k c d xs (rw e at h)
  | inl e ↦ elim (Bool-cases (ltb (chars c.description) (chars x.description))) [
    | inl q ↦ omega (arith, best_for-grows k x d xs (rw q at rw e at h), less_of c x q)
    | inr q ↦ best_for-grows k c d xs (rw q at rw e at h)
  ]
]
  where
    less_of :
        (c x : SymbolDoc)
        → ltb (chars c.description) (chars x.description) ≡ true
        → chars c.description ≤ chars x.description
    less_of c x q = ground (arith, q)

best_for-some :
    (k c d : SymbolDoc) (xs : List SymbolDoc)
    → best_for k (some c) xs ≡ some d
    → All (λ s. same_key s k ≡ true → chars s.description ≤ chars d.description) xs
best_for-some k c d [] h = tt
best_for-some k c d (x ∷ xs) h = elim (Bool-cases (same_key x k)) [
  | inr e ↦ ((λ same. absurd (ground (arith, e, same))), best_for-some k c d xs (rw e at h))
  | inl e ↦ elim (Bool-cases (ltb (chars c.description) (chars x.description))) [
    | inl q ↦
        let h' : best_for k (some x) xs ≡ some d = rw q at rw e at h in
        ((λ same. best_for-grows k x d xs h'), best_for-some k x d xs h')
    | inr q ↦
        let h' : best_for k (some c) xs ≡ some d = rw q at rw e at h in
        ((λ same. ground (arith, best_for-grows k c d xs h', q)), best_for-some k c d xs h')
  ]
]

best_for-IsLongest :
    (d : SymbolDoc) (xs : List SymbolDoc) → best_for d none xs ≡ some d → IsLongest xs d
best_for-IsLongest d xs h = go d xs h
  where
    go :
        (k : SymbolDoc) (xs : List SymbolDoc)
        → best_for k none xs ≡ some d
        → All (λ s. same_key s k ≡ true → chars s.description ≤ chars d.description) xs
    go k [] h = tt
    go k (x ∷ xs) h = elim (Bool-cases (same_key x k)) [
      | inr e ↦ ((λ same. absurd (ground (arith, e, same))), go k xs (rw e at h))
      | inl e ↦
          let h' : best_for k (some x) xs ≡ some d = rw e at h in
          ((λ same. best_for-grows k x d xs h'), best_for-some k x d xs h')
    ]

longer-key : (x c k : SymbolDoc) → same_key c x ≡ true → same_key (longer x c) k ≡ same_key x k
longer-key x c k h = elim (Bool-cases (ltb (chars c.description) (chars x.description))) [
  | inl e ↦ ap (λ d. same_key d k) (if_true (ltb (chars c.description) (chars x.description)) x c e)
  | inr e ↦
      ap (λ d. same_key d k) (if_false (ltb (chars c.description) (chars x.description)) x c e)
      ∙ same_key-swap c x k h
]

find-put_best :
    (k x : SymbolDoc) (best : List SymbolDoc)
    → find_where (λ d. same_key d k) (put_best x best) ≡ (
        if same_key x k
        then longest (find_where (λ d. same_key d k) best) x
        else find_where (λ d. same_key d k) best)
unfolding put_best
find-put_best k x [] = refl
find-put_best k x (c ∷ best) = elim (Bool-cases (same_key c x)) [
  | inl e ↦ ground (arith, e, longer-key x c k e, same_key-swap c x k e)
  | inr e ↦ ground (arith, e, find-put_best k x best, same_key-join c x k)
]

-- How many entries have the key of `k`.
abbrev pub entries : SymbolDoc → List SymbolDoc → ℕ
entries k xs = count (λ d. same_key d k) xs

entries-put_best :
    (k x : SymbolDoc) (best : List SymbolDoc)
    → entries k (put_best x best)
      ≡ (if same_key x k then max 1 (entries k best) else entries k best)
unfolding put_best
entries-put_best k x [] = ground arith
entries-put_best k x (c ∷ best) = elim (Bool-cases (same_key c x)) [
  | inl e ↦ ground (arith, e, longer-key x c k e, same_key-swap c x k e)
  | inr e ↦ ground (arith, e, entries-put_best k x best, same_key-join c x k)
]

entries-best_of :
    (k : SymbolDoc) (best xs : List SymbolDoc)
    → entries k (best_of best xs) ≡ max (entries k best) (min 1 (entries k xs))
entries-best_of k best [] = omega arith
entries-best_of k best (x ∷ xs) =
    ground (arith, entries-best_of k (put_best x best) xs, entries-put_best k x best)

find-best_of :
    (k : SymbolDoc) (best xs : List SymbolDoc)
    → find_where (λ d. same_key d k) (best_of best xs)
      ≡ best_for k (find_where (λ d. same_key d k) best) xs
find-best_of k best [] = refl
find-best_of k best (x ∷ xs) =
    find-best_of k (put_best x best) xs ∙ ap (λ o. best_for k o xs) (find-put_best k x best)

entries-found :
    (k d : SymbolDoc) (xs : List SymbolDoc)
    → find_where (λ e. same_key e k) xs ≡ some d
    → 1 ≤ entries k xs
entries-found k d [] h = absurd (some≢none (sym h))
entries-found k d (x ∷ xs) h = ground (arith, h, entries-found k d xs)

-- Where no key stands twice, each entry is found by its key.
found_everywhere :
    (xs : List SymbolDoc)
    → ((k : SymbolDoc) → entries k xs ≤ 1)
    → All (λ d. find_where (λ e. same_key e d) xs ≡ some d) xs
found_everywhere [] h = tt
found_everywhere (x ∷ xs) h = (
  if_true (same_key x x) (some x) (find_where (λ e. same_key e x) xs) (same_key_refl x),
  All-imp (λ d. find_where (λ e. same_key e d) xs ≡ some d)
      (λ d. find_where (λ e. same_key e d) (x ∷ xs) ≡ some d) xs
      (λ d f. ground (arith, h d, f, entries-found d d xs f))
      (found_everywhere xs (λ k. omega (arith, h k))),
)

symbol_le-line : (a b : SymbolDoc) → symbol_le a b ≡ true → a.line_start ≤ b.line_start
symbol_le-line a b h = ground (arith, h)

symbol_le-not : (a b : SymbolDoc) → symbol_le a b ≡ false → b.line_start ≤ a.line_start
symbol_le-not a b h = ground (arith, h)

entries_of_result :
    (xs : List SymbolDoc) (k : SymbolDoc)
    → entries k (sorted symbol_le (best_of [] xs)) ≡ min 1 (entries k xs)
entries_of_result xs k =
    count-sorted symbol_le (λ d. same_key d k) (best_of [] xs)
    ∙ omega (arith, entries-best_of k [] xs)

best_of_result :
    (xs : List SymbolDoc)
    → All (λ d. best_for d none xs ≡ some d) (sorted symbol_le (best_of [] xs))
best_of_result xs =
    All-sorted symbol_le (λ d. best_for d none xs ≡ some d) (best_of [] xs)
      (All-imp (λ d. find_where (λ e. same_key e d) (best_of [] xs) ≡ some d)
        (λ d. best_for d none xs ≡ some d) (best_of [] xs) (λ d f. sym (find-best_of d [] xs) ∙ f)
        (found_everywhere (best_of [] xs) (λ k. omega (arith, entries-best_of k [] xs))))

-- Of the symbols with one name and parent exactly one is kept and nothing else; it is the first
-- with the longest description, so that no symbol of its name and parent has a longer one; the
-- result ascends by the line where a symbol starts.
pub dedupe_symbols_best :
    (xs : List SymbolDoc) (k : SymbolDoc)
    → (entries k (dedupe_symbols xs) ≡ min 1 (entries k xs))
      × All (λ d. best_for d none xs ≡ some d) (dedupe_symbols xs)
      × All (IsLongest xs) (dedupe_symbols xs)
      × IsAscending (λ d. d.line_start) (dedupe_symbols xs)
unfolding dedupe_symbols
dedupe_symbols_best xs k = (
  entries_of_result xs k,
  best_of_result xs,
  All-imp (λ d. best_for d none xs ≡ some d) (IsLongest xs) (sorted symbol_le (best_of [] xs))
      (λ d h. best_for-IsLongest d xs h) (best_of_result xs),
  sorted-IsAscending symbol_le (λ d. d.line_start) symbol_le-line symbol_le-not (best_of [] xs),
)

put_best-All :
    (P : SymbolDoc → Type 0) (x : SymbolDoc) (best : List SymbolDoc)
    → P x
    → All P best
    → All P (put_best x best)
unfolding put_best
put_best-All P x [] h k = (h, tt)
put_best-All P x (c ∷ best) h k = elim (Bool-cases (same_key c x)) [
  | inl e ↦ rw e (longer-All, k.1)
  | inr e ↦ rw e (k.0, put_best-All P x best h k.1)
]
  where
    longer-All : P (longer x c)
    longer-All = elim (Bool-cases (ltb (chars c.description) (chars x.description))) [
      | inl e ↦ rw e h
      | inr e ↦ rw e k.0
    ]

best_of-All :
    (P : SymbolDoc → Type 0) (best xs : List SymbolDoc)
    → All P best
    → All P xs
    → All P (best_of best xs)
best_of-All P best [] h k = h
best_of-All P best (x ∷ xs) h k =
    best_of-All P (put_best x best) xs (put_best-All P x best k.0 h) k.1

-- What holds of all symbols holds of those that are kept.
pub dedupe_symbols-All :
    (P : SymbolDoc → Type 0) (xs : List SymbolDoc) → All P xs → All P (dedupe_symbols xs)
unfolding dedupe_symbols
dedupe_symbols-All P xs h = All-sorted symbol_le P (best_of [] xs) (best_of-All P [] xs tt h)

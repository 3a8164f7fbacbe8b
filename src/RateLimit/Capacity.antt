-- ===== src/RateLimit/Capacity.antt =====
-- The limiter tracks a bounded number of keys, and a check always answers.
use legacy_doc.Common.{
  ℕ, ◌+◌, ◌≤◌, ◌/◌, ◌%◌, ◌≡◌, refl, inl, inr, true, some, [], ◌∷◌, ◌++◌, arith, length,
  length-append, Option-cases, is_some,
}
use legacy_doc.RateLimit.{
  RateLimitRule, RateLimitDecision, KeyState, States, get_state, remove_key, write_state, evict,
  move_to_end, roll_window, state_for, decide_state, check,
}

length-evict : (capacity : ℕ) (d : States) → length (evict capacity d) ≤ capacity
unfolding evict
length-evict capacity [] = omega arith
length-evict capacity (e ∷ d) = ground (arith, length-evict capacity d)

get_state-last :
    (key : ℕ) (s : KeyState) (d : States) → is_some (get_state key (d ++ (key, s) ∷ [])) ≡ true
get_state-last key s [] = ground arith
get_state-last key s ((j, t) ∷ d) = ground (arith, get_state-last key s d)

-- The key that was added last survives the eviction.
evict-keeps_last :
    (capacity key : ℕ) (s : KeyState) (d : States)
    → 1 ≤ capacity
    → is_some (get_state key (evict capacity (d ++ (key, s) ∷ []))) ≡ true
unfolding evict
evict-keeps_last capacity key s [] h = ground arith
evict-keeps_last capacity key s ((j, t) ∷ d) h =
    ground (arith, evict-keeps_last capacity key s d h, get_state-last key s d)

length-remove_key :
    (key : ℕ) (d : States)
    → is_some (get_state key d) ≡ true
    → length (remove_key key d) + 1 ≡ length d
length-remove_key key [] h = cc
length-remove_key key ((j, s) ∷ d) h = ground (arith, length-remove_key key d)

length-write_state : (key : ℕ) (s : KeyState) (d : States) → length (write_state key s d) ≡ length d
length-write_state key s [] = refl
length-write_state key s ((j, t) ∷ d) = ground (arith, length-write_state key s d)

move_to_end-length :
    (key : ℕ) (s : KeyState) (d : States)
    → is_some (get_state key d) ≡ true
    → (d' : States) × (move_to_end key s d ≡ some d') × (length d' ≡ length d)
move_to_end-length key s d h = (
  remove_key key d ++ (key, s) ∷ [],
  ground (arith, h),
  omega (arith, length-append {0} (remove_key key d) ((key, s) ∷ []), length-remove_key key d h),
)

-- With room for at least one key, a check answers with a decision whatever the key, and the number of
-- tracked keys never passes the capacity.
pub check_total :
    (ceiling : ℕ → ℕ → ℕ) (u capacity now key : ℕ) (rule : RateLimitRule) (d : States)
    → 1 ≤ capacity
    → length d ≤ capacity
    → (decision : RateLimitDecision) × (d' : States) × (check ceiling u capacity now key rule d
        ≡ some (decision, d'))
      × (length d' ≤ capacity)
unfolding check state_for
check_total ceiling u capacity now key rule d room h = elim (Option-cases (get_state key d)) [
  | inl e ↦
      let index = now / rule.window in
      let fresh : KeyState = record {
        window_index = index;
        current_count = 0;
        previous_count = 0;
      } in
      let (d', moved, len) =
        move_to_end-length key fresh (evict capacity (d ++ (key, fresh) ∷ []))
          (evict-keeps_last capacity key fresh d room) in
      let (decision, s') = decide_state ceiling u rule (now % rule.window) fresh in
      (
        decision,
        write_state key s' d',
        rw (e, check) (rw moved),
        omega (
          arith,
          length-write_state key s' d',
          len,
          length-evict capacity (d ++ (key, fresh) ∷ []),
        ),
      )
  | inr (s, e) ↦
      let index = now / rule.window in
      let (d', moved, len) = move_to_end-length key (roll_window s index) d (rw e) in
      let (decision, s') = decide_state ceiling u rule (now % rule.window) (roll_window s index) in
      (
        decision,
        write_state key s' d',
        rw (e, check) (rw moved),
        omega (arith, length-write_state key s' d', len),
      )
]

-- ===== src/RateLimit/Retry.antt =====
-- When a refused client may come back.
use legacy_doc.Common.{
  ℕ, ◌+◌, ◌-◌, ◌*◌, ◌/◌, ◌%◌, ◌≤◌, ◌<◌, ◌≡◌, subst, sym, ap, max, true, false, arith, ltb, lt→ltb,
}
use native.Mathlib.Decide.{dec_le}
use native.Mathlib.Nat.{
  mul-le-mul_right, mul-lt-mul_of_pos_right, mul-lt-mul_of_pos_left, mul-le-mul_left, div-add-mod',
  mod-lt,
}
use legacy_doc.RateLimit.{
  RateLimitRule, KeyState, roll_window, at_least_one_second, seconds_until_allowed, estimated,
  decide_state,
}

-- The exact quotient, rounded up.
abbrev pub ceil_div : ℕ → ℕ → ℕ
ceil_div a b = (a + b - 1) / b

-- The rounded quotient covers the dividend.
pub ceil_div-covers : (a b : ℕ) → 0 < b → a ≤ ceil_div a b * b
ceil_div-covers a b h = grind arith

-- In the same window, past the advised wait, the decayed estimate is below the limit: `d` ticks are
-- left of the window, `x` more have passed than the wait, and `k` requests are left of the allowance.
decayed :
    (p c k w u d x r : ℕ)
    → 0 < p
    → (d + r * u + 1 + x) * p ≤ r * (p * u) + k * w
    → p * d + c * w < (c + k) * w
decayed p c k w u d x r pp cover = omega arith

same_window :
    (p c m w u e e' r : ℕ)
    → c < m
    → 0 < p
    → e' < w
    → (w - e) * p - (m - c) * w ≤ r * (p * u)
    → e + r * u < e'
    → p * (w - e') + c * w < m * w
same_window p c m w u e e' r cm pp ew cover late =
    let rest : w - e ≡ w - e' + r * u + 1 + (e' - (e + r * u + 1)) = omega arith in
    let limit : m ≡ c + (m - c) = omega arith in
    let bound : (w - e' + r * u + 1 + (e' - (e + r * u + 1))) * p ≤ r * (p * u) + (m - c) * w =
      subst (λ (z : ℕ). z * p ≤ r * (p * u) + (m - c) * w) rest (omega arith) in
    subst (λ (z : ℕ). p * (w - e') + c * w < z * w) (sym limit)
      (decayed p c (m - c) w u (w - e') (e' - (e + r * u + 1)) r pp bound)

-- A client that spent the whole allowance of the current window is told to wait for its end.
full_window : (c w u e r : ℕ) → 0 < c → (w - e) * c ≤ r * (c * u) → w - e ≤ r * u
full_window c w u e r pc cover = elim (dec_le (w - e) (r * u)) [
  | yes h ↦ h
  | no h ↦
      let more : r * u + 1 ≤ w - e = omega arith in absurd (omega (arith, mul-le-mul_right c more))
]

at_least_one_second-covers :
    (ceiling : ℕ → ℕ → ℕ) (covers : (a b : ℕ) → 0 < b → a ≤ ceiling a b * b) (a b : ℕ)
    → 0 < b
    → a ≤ at_least_one_second ceiling a b * b
at_least_one_second-covers ceiling covers a b h =
    let more : ceiling a b ≤ max 1 (ceiling a b) = omega arith in
    omega (arith, covers a b h, mul-le-mul_right b more)

mul_pos : (a b : ℕ) → 0 < a → 0 < b → 0 < a * b
mul_pos a b h k = grind arith

-- The wait that a refusal advises covers the time after which the estimate has decayed.
advised :
    (ceiling : ℕ → ℕ → ℕ) (covers : (a b : ℕ) → 0 < b → a ≤ ceiling a b * b) (u : ℕ)
    (rule : RateLimitRule) (s : KeyState) (e : ℕ)
    → 0 < u
    → s.current_count < rule.max_requests
    → 0 < s.previous_count
    → (rule.window - e) * s.previous_count - (rule.max_requests - s.current_count) * rule.window
      ≤ seconds_until_allowed ceiling u s rule e * (s.previous_count * u)
unfolding seconds_until_allowed
advised ceiling covers u rule s e pu c p = rw (lt→ltb s.current_count rule.max_requests c) (
    rw (lt→ltb 0 s.previous_count p) (
      at_least_one_second-covers ceiling covers
        ((rule.window - e) * s.previous_count - (rule.max_requests - s.current_count) * rule.window)
        (s.previous_count * u) (mul_pos s.previous_count u p pu)))

advised_full :
    (ceiling : ℕ → ℕ → ℕ) (covers : (a b : ℕ) → 0 < b → a ≤ ceiling a b * b) (u : ℕ)
    (rule : RateLimitRule) (s : KeyState) (e : ℕ)
    → 0 < u
    → 0 < s.current_count
    → s.current_count ≡ rule.max_requests
    → rule.window - e ≤ seconds_until_allowed ceiling u s rule e * u
unfolding seconds_until_allowed
advised_full ceiling covers u rule s e pu c p =
    let spent : ltb s.current_count rule.max_requests ≡ false = ground arith in
    let one : max s.current_count 1 ≡ s.current_count = omega arith in
    let wait =
      at_least_one_second ceiling
        ((rule.window - e) * max s.current_count 1
          + (max s.current_count 1 - rule.max_requests) * rule.window)
        (max s.current_count 1 * u) in
    let cover =
      at_least_one_second-covers ceiling covers
        ((rule.window - e) * max s.current_count 1
          + (max s.current_count 1 - rule.max_requests) * rule.window)
        (max s.current_count 1 * u) (mul_pos (max s.current_count 1) u (omega arith) pu) in
    rw spent (
      full_window (max s.current_count 1) rule.window u e wait (omega arith) (omega (arith, cover)))

-- A refusal shows that the estimate had reached the limit, and leaves the state alone.
refused :
    (ceiling : ℕ → ℕ → ℕ) (u : ℕ) (rule : RateLimitRule) (s : KeyState) (e : ℕ)
    → (decide_state ceiling u rule e s).0.allowed ≡ false
    → (rule.max_requests * rule.window ≤ estimated s rule e)
      × ((decide_state ceiling u rule e s).0.retry_after_seconds
          ≡ seconds_until_allowed ceiling u s rule e)
      × ((decide_state ceiling u rule e s).1 ≡ s)
unfolding decide_state
refused ceiling u rule s e h = ground arith

granted :
    (ceiling : ℕ → ℕ → ℕ) (u : ℕ) (rule : RateLimitRule) (s : KeyState) (e : ℕ)
    → estimated s rule e < rule.max_requests * rule.window
    → (decide_state ceiling u rule e s).0.allowed ≡ true
unfolding decide_state
granted ceiling u rule s e h = ground arith

-- The estimate after the advised wait, in the same window, in the next one, and later.
module _ (ceiling : ℕ → ℕ → ℕ) (covers : (a b : ℕ) → 0 < b → a ≤ ceiling a b * b) (u : ℕ)
    (rule : RateLimitRule) (s : KeyState) (e e' index : ℕ) (pu : 0 < u) (pe : e < rule.window)
    (pe' : e' < rule.window) (pm : 0 < rule.max_requests)
    (within : s.current_count ≤ rule.max_requests)
    (full : rule.max_requests * rule.window ≤ estimated s rule e) where
  later_same :
      e + seconds_until_allowed ceiling u s rule e * u < e'
      → estimated s rule e' < rule.max_requests * rule.window
  later_same late = elim (dec_le rule.max_requests s.current_count) [
    | yes spent ↦
        absurd
          (omega (arith, advised_full ceiling covers u rule s e pu (omega arith) (omega arith)))
    | no less ↦ elim (dec_le s.previous_count 0) [
      | yes idle ↦ absurd (
          omega (
            arith,
            mul-le-mul_right (rule.window - e) idle,
            mul-lt-mul_of_pos_right {m = s.current_count} {n = rule.max_requests} {k = rule.window}
                (omega arith) (omega arith),
          ))
      | no busy ↦
          same_window s.previous_count s.current_count rule.max_requests rule.window u e e'
            (seconds_until_allowed ceiling u s rule e) (omega arith) (omega arith) pe'
            (advised ceiling covers u rule s e pu (omega arith) (omega arith)) late
    ]
  ]

  later_next :
      s.window_index + 1 ≡ index
      → e + seconds_until_allowed ceiling u s rule e * u < rule.window + e'
      → estimated (roll_window s index) rule e' < rule.max_requests * rule.window
  unfolding roll_window
  later_next next late =
      let rolled : estimated (roll_window s index) rule e' ≡ s.current_count * (rule.window - e') =
        ground (arith, next) in
      rw rolled (elim (dec_le rule.max_requests s.current_count) [
        | yes spent ↦
            let open_again =
              advised_full ceiling covers u rule s e pu (omega arith) (omega arith) in
            omega (
              arith,
              mul-lt-mul_of_pos_left {m = rule.window - e'} {n = rule.window} {k = s.current_count}
                  (omega (arith, open_again)) (omega arith),
              mul-le-mul_right rule.window within,
            )
        | no less ↦
            let shorter : rule.window - e' ≤ rule.window = omega arith in
            omega (
              arith,
              mul-le-mul_left s.current_count shorter,
              mul-lt-mul_of_pos_right {m = s.current_count} {n = rule.max_requests}
                  {k = rule.window} (omega arith) (omega arith),
            )
      ])

  later_far :
      s.window_index + 1 < index
      → estimated (roll_window s index) rule e' < rule.max_requests * rule.window
  unfolding roll_window
  later_far far =
      let rolled : estimated (roll_window s index) rule e' ≡ 0 = ground (arith, far) in
      rw rolled (mul_pos rule.max_requests rule.window pm (omega arith))

same_index : (now now' w : ℕ) → 0 < w → now < now' → now' / w ≤ now / w → now' / w ≡ now / w
same_index now now' w pw lt le = elim (dec_le (now / w) (now' / w)) [
  | yes ge ↦ omega arith
  | no less ↦
      let below : now' / w + 1 ≤ now / w = omega arith in
      absurd (
        omega (
          arith,
          mul-le-mul_right w below,
          div-add-mod' now w,
          div-add-mod' now' w,
          mod-lt now' pw,
        ))
]

next_index : (i i' : ℕ) → ¬ (i' ≤ i) → i' ≤ i + 1 → i' ≡ i + 1
next_index i i' h k = omega arith

roll_window-same : (s : KeyState) (index : ℕ) → index ≤ s.window_index → roll_window s index ≡ s
unfolding roll_window
roll_window-same s index h = ground arith

-- Two instants, by their windows and the ticks since each window began.
later_window :
    (ceiling : ℕ → ℕ → ℕ) (covers : (a b : ℕ) → 0 < b → a ≤ ceiling a b * b) (u : ℕ)
    (rule : RateLimitRule) (s : KeyState) (now now' : ℕ)
    → 0 < u
    → 0 < rule.window
    → 0 < rule.max_requests
    → s.window_index ≡ now / rule.window
    → s.current_count ≤ rule.max_requests
    → now + seconds_until_allowed ceiling u s rule (now % rule.window) * u < now'
    → rule.max_requests * rule.window ≤ estimated s rule (now % rule.window)
    → estimated (roll_window s (now' / rule.window)) rule (now' % rule.window)
      < rule.max_requests * rule.window
later_window ceiling covers u rule s now now' pu pw pm at within late full =
    let w = rule.window in
    let e = mod-lt now pw in
    let e' = mod-lt now' pw in
    let split = div-add-mod' now w in
    let split' = div-add-mod' now' w in
    elim (dec_le (now' / w) (now / w)) [
      | yes before ↦
          let as_one : now' / w ≡ now / w = same_index now now' w pw (omega arith) before in
          let still : roll_window s (now' / w) ≡ s =
            roll_window-same s (now' / w) (omega (arith, at)) in
          rw still (
            later_same ceiling covers u rule s (now % w) (now' % w) (now' / w) pu e e' pm within
              full (omega (arith, split, split', ap (λ (z : ℕ). z * w) as_one)))
      | no after ↦ elim (dec_le (now' / w) (now / w + 1)) [
        | yes next ↦
            later_next ceiling covers u rule s (now % w) (now' % w) (now' / w) pu e e' pm within
              full (omega (arith, at))
              (omega (
                arith,
                split,
                split',
                ap (λ (z : ℕ). z * w) (next_index (now / w) (now' / w) after next),
              ))
        | no far ↦
            later_far ceiling covers u rule s (now % w) (now' % w) (now' / w) pu e e' pm within full
              (omega (arith, at))
      ]
    ]

-- A client that was refused, and that comes back later than the advised wait with no request in
-- between, is let through, provided that the advised wait is at least the exact one: for every
-- rule, whatever its counters are, as long as the counter of the current window is within the
-- limit.
pub retry_after_enough :
    (ceiling : ℕ → ℕ → ℕ) (covers : (a b : ℕ) → 0 < b → a ≤ ceiling a b * b) (u : ℕ)
    (rule : RateLimitRule) (s : KeyState) (now now' : ℕ)
    → 0 < u
    → 0 < rule.window
    → 0 < rule.max_requests
    → s.window_index ≡ now / rule.window
    → s.current_count ≤ rule.max_requests
    → (decide_state ceiling u rule (now % rule.window) s).0.allowed ≡ false
    → now + (decide_state ceiling u rule (now % rule.window) s).0.retry_after_seconds * u < now'
    → (decide_state ceiling u rule (now' % rule.window) (
        roll_window
          (decide_state ceiling u rule (now % rule.window) s).1
          (now' / rule.window))).0.allowed
      ≡ true
retry_after_enough ceiling covers u rule s now now' pu pw pm at within denied late =
    let (full, wait, same) = refused ceiling u rule s (now % rule.window) denied in
    rw same (
      granted ceiling u rule (roll_window s (now' / rule.window)) (now' % rule.window) (
        later_window ceiling covers u rule s now now' pu pw pm at within
          (subst (λ (r : ℕ). now + r * u < now') wait late) full))

-- ===== src/RateLimit/Window.antt =====
-- How many requests of one key pass in one window.
use native.Mathlib.Decide.{dec_le}
use native.Mathlib.Nat.{mul-le-mul_right}
use legacy_doc.Common.{
  ℕ, ◌+◌, ◌*◌, ◌/◌, ◌%◌, ◌≤◌, ◌<◌, ◌≡◌, subst, sym, ◌∙◌, ◌&&◌, List, [], ◌∷◌, arith, ◌==◌,
  if◌then◌else◌,
}
use legacy_doc.RateLimit.{RateLimitRule, KeyState, roll_window, estimated, decide_state}

-- The instants of a key's requests never go back to an earlier window.
abbrev pub Ascending : ℕ → ℕ → List ℕ → Type 0
Ascending window lo [] = Unit
Ascending window lo (now ∷ later) = (lo ≤ now / window) × Ascending window (now / window) later

-- How many of the requests of one key, made at the given instants, pass in the window `index`.
abbrev pub admitted : (ceiling : ℕ → ℕ → ℕ) → ℕ → RateLimitRule → ℕ → List ℕ → KeyState → ℕ
admitted ceiling u rule index [] s = 0
admitted ceiling u rule index (now ∷ later) s =
    let (decision, s') =
      decide_state ceiling u rule (now % rule.window) (roll_window s (now / rule.window)) in
    (if decision.allowed && (now / rule.window) == index then 1 else 0)
    + admitted ceiling u rule index later s'

cancel : (c m w : ℕ) → c * w < m * w → c < m
cancel c m w h = elim (dec_le m c) [
  | yes le ↦ absurd (omega (arith, mul-le-mul_right w le))
  | no lt ↦ omega arith
]

below_limit :
    (rule : RateLimitRule) (s : KeyState) (e : ℕ)
    → estimated s rule e < rule.max_requests * rule.window
    → s.current_count < rule.max_requests
below_limit rule s e h = cancel s.current_count rule.max_requests rule.window (omega (arith, h))

-- One request: it is counted in the state if it passes, and the counter stays within the limit.
decide_state-counts :
    (ceiling : ℕ → ℕ → ℕ) (u : ℕ) (rule : RateLimitRule) (e : ℕ) (s : KeyState)
    → s.current_count ≤ rule.max_requests
    → ((decide_state ceiling u rule e s).1.current_count
        ≡ s.current_count + (if (decide_state ceiling u rule e s).0.allowed then 1 else 0))
      × ((decide_state ceiling u rule e s).1.current_count ≤ rule.max_requests)
      × ((decide_state ceiling u rule e s).1.window_index ≡ s.window_index)
unfolding decide_state
decide_state-counts ceiling u rule e s h = ground (arith, below_limit rule s e)

roll_window-counts :
    (s : KeyState) (index i m : ℕ)
    → s.window_index ≤ i
    → s.current_count ≤ m
    → ((roll_window s i).window_index ≡ i)
      × ((roll_window s i).current_count ≤ m)
      × ((if i == index then (roll_window s i).current_count else 0)
          ≡ (if i == index && s.window_index == index then s.current_count else 0))
unfolding roll_window
roll_window-counts s index i m le c = ground arith

-- No request passes in a window that is over.
admitted-past :
    (ceiling : ℕ → ℕ → ℕ) (u : ℕ) (rule : RateLimitRule) (index : ℕ) (instants : List ℕ)
    (s : KeyState)
    → index < s.window_index
    → s.current_count ≤ rule.max_requests
    → Ascending rule.window s.window_index instants
    → admitted ceiling u rule index instants s ≡ 0
admitted-past ceiling u rule index [] s past h asc = omega arith
admitted-past ceiling u rule index (now ∷ later) s past h (lo, asc) =
    let i = now / rule.window in
    let rolled = roll_window s i in
    let (at, within, _) = roll_window-counts s index i rule.max_requests lo h in
    let (_, within', at') = decide_state-counts ceiling u rule (now % rule.window) rolled within in
    let s' = (decide_state ceiling u rule (now % rule.window) rolled).1 in
    let asc' = subst (λ k. Ascending rule.window k later) (sym (at' ∙ at)) asc in
    let rest = admitted-past ceiling u rule index later s' (omega (arith, at, at')) within' asc' in
    ground (arith, rest)

-- While the limiter keeps the state of a key, at most `max_requests` of its requests pass in each
-- window, counting those that the state has already counted there, however they are spread over
-- the windows.
pub admitted_bounded :
    (ceiling : ℕ → ℕ → ℕ) (u : ℕ) (rule : RateLimitRule) (index : ℕ) (instants : List ℕ)
    (s : KeyState)
    → s.current_count ≤ rule.max_requests
    → Ascending rule.window s.window_index instants
    → admitted ceiling u rule index instants s
        + (if s.window_index == index then s.current_count else 0)
      ≤ rule.max_requests
admitted_bounded ceiling u rule index [] s h asc = ground arith
admitted_bounded ceiling u rule index (now ∷ later) s h (lo, asc) =
    let i = now / rule.window in
    let rolled = roll_window s i in
    let (at, within, before) = roll_window-counts s index i rule.max_requests lo h in
    let (counted, within', at') =
      decide_state-counts ceiling u rule (now % rule.window) rolled within in
    let s' = (decide_state ceiling u rule (now % rule.window) rolled).1 in
    let asc' = subst (λ k. Ascending rule.window k later) (sym (at' ∙ at)) asc in
    let rest = admitted_bounded ceiling u rule index later s' within' asc' in
    elim (dec_le i index) [
      | yes early ↦ ground (arith, early, at, at', counted, before, rest)
      | no over ↦
          let none_left =
            admitted-past ceiling u rule index later s' (omega (arith, at, at')) within' asc' in
          ground (arith, at, at', counted, before, rest, none_left)
    ]

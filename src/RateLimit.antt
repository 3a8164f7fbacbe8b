-- ===== src/RateLimit.antt =====
-- The sliding-window limiter: packages/core/legacydoc_core/ratelimit.py. The clock and the window
-- are counted in ticks, `ticks_per_second` of them to a second, and the source's floating-point
-- fractions are exact, each kept as a numerator over the window or over a counter; how the advised
-- wait is rounded up is the argument `ceiling`. Keys are only compared, so they are numbers.
pub mod Window
pub mod Retry
pub mod Capacity
mod Tests
use legacy_doc.Common.{
  ℕ, suc, ◌+◌, ◌-◌, ◌*◌, ◌/◌, ◌%◌, max, Bool, true, false, ◌||◌, ◌&&◌, Option, none, some, List, [],
  ◌∷◌, ◌++◌, String, ltb, leb, ◌==◌, if◌then◌else◌, length,
}

pub record RateLimitRule : Type 0 where
  pub max_requests : ℕ
  pub window : ℕ  -- in ticks
  pub name : String

-- `__post_init__`: `none` is the `ValueError`.
unfoldable pub make_rule : ℕ → ℕ → String → Option RateLimitRule
make_rule max_requests window name =
    if ltb max_requests 1 || leb window 0
    then none
    else some (record { max_requests = max_requests; window = window; name = name })

pub record RateLimitDecision : Type 0 where
  pub allowed : Bool
  pub remaining : ℕ
  pub retry_after_seconds : ℕ

pub record KeyState : Type 0 where
  pub window_index : ℕ
  pub current_count : ℕ
  pub previous_count : ℕ

-- `_roll_window`
unfoldable pub roll_window : KeyState → ℕ → KeyState
roll_window s index = if leb index s.window_index then s else record {
  window_index = index;
  current_count = 0;
  previous_count = if index - s.window_index == 1 then s.current_count else 0;
}

-- `_at_least_one_second` of `a / b` seconds. The source computes the quotient in floats, whose
-- error can lift a whole number of seconds to the next: `ceiling a b` is what `math.ceil` makes of
-- it. A negative wait is cut off at 0, which gives 1 as well.
abbrev pub at_least_one_second : (ceiling : ℕ → ℕ → ℕ) → ℕ → ℕ → ℕ
at_least_one_second ceiling a b = max 1 (ceiling a b)

-- `_seconds_until_allowed`, `elapsed` ticks into the window: over the previous counter as the common
-- denominator in the first branch, over the current one in the second.
unfoldable pub seconds_until_allowed : (ℕ → ℕ → ℕ) → ℕ → KeyState → RateLimitRule → ℕ → ℕ
seconds_until_allowed ceiling ticks_per_second s rule elapsed =
    if ltb s.current_count rule.max_requests && ltb 0 s.previous_count
    then at_least_one_second ceiling
        ((rule.window - elapsed) * s.previous_count
          - (rule.max_requests - s.current_count) * rule.window)
        (s.previous_count * ticks_per_second)
    else at_least_one_second ceiling
        ((rule.window - elapsed) * max s.current_count 1
          + (max s.current_count 1 - rule.max_requests) * rule.window)
        (max s.current_count 1 * ticks_per_second)

-- `previous * (1 - elapsed / window) + current`, times the window.
abbrev pub estimated : KeyState → RateLimitRule → ℕ → ℕ
estimated s rule elapsed =
    s.previous_count * (rule.window - elapsed) + s.current_count * rule.window

-- The decision of `check` on the state of one key, and that state after it.
unfoldable pub decide_state :
    (ℕ → ℕ → ℕ) → ℕ → RateLimitRule → ℕ → KeyState → RateLimitDecision × KeyState
decide_state ceiling ticks_per_second rule elapsed s =
    if leb (rule.max_requests * rule.window) (estimated s rule elapsed)
    then (
      record {
        allowed = false;
        remaining = 0;
        retry_after_seconds = seconds_until_allowed ceiling ticks_per_second s rule elapsed;
      },
      s,
    )
    else (
      record {
        allowed = true;
        remaining = rule.max_requests - estimated s rule elapsed / rule.window - 1;
        retry_after_seconds = 0;
      },
      record s { current_count = s.current_count + 1 },
    )

-- The ordered dictionary of the limiter, the least recently used key first.
abbrev pub States : Type 0
States = List (ℕ × KeyState)

abbrev pub get_state : ℕ → States → Option KeyState
get_state k [] = none
get_state k ((j, s) ∷ d) = if j == k then some s else get_state k d

abbrev pub remove_key : ℕ → States → States
remove_key k [] = []
remove_key k ((j, s) ∷ d) = if j == k then d else (j, s) ∷ remove_key k d

-- `_evict_if_over_capacity`: the oldest keys leave while there are too many.
unfoldable pub evict : ℕ → States → States
evict capacity [] = []
evict capacity (e ∷ d) =
    let rest = evict capacity d in if ltb capacity (length (e ∷ d)) then rest else e ∷ d

-- `move_to_end` of a key with its state written; `none` is the `KeyError` of a missing key.
abbrev pub move_to_end : ℕ → KeyState → States → Option States
move_to_end k s d = elim (get_state k d) [
  | none ↦ none
  | some _ ↦ some (remove_key k d ++ (k, s) ∷ [])
]

-- `_state_for`
unfoldable pub state_for : ℕ → ℕ → ℕ → States → Option (KeyState × States)
state_for capacity key index d = elim (get_state key d) [
  | none ↦
      let fresh : KeyState = record {
        window_index = index;
        current_count = 0;
        previous_count = 0;
      } in
      elim (move_to_end key fresh (evict capacity (d ++ (key, fresh) ∷ []))) [
        | none ↦ none
        | some d' ↦ some (fresh, d')
      ]
  | some s ↦ elim (move_to_end key (roll_window s index) d) [
    | none ↦ none
    | some d' ↦ some (roll_window s index, d')
  ]
]

-- `check`: the counter of the state object in the dictionary is raised in place.
abbrev pub write_state : ℕ → KeyState → States → States
write_state k s [] = []
write_state k s ((j, t) ∷ d) = if j == k then (j, s) ∷ d else (j, t) ∷ write_state k s d

unfoldable pub check :
    (ℕ → ℕ → ℕ) → ℕ → ℕ → ℕ → ℕ → RateLimitRule → States → Option (RateLimitDecision × States)
check ceiling ticks_per_second capacity now key rule d =
    elim (state_for capacity key (now / rule.window) d) [
      | none ↦ none
      | some (s, d') ↦
          let (decision, s') = decide_state ceiling ticks_per_second rule (now % rule.window) s in
          some (decision, write_state key s' d')
    ]

-- `reset`
unfoldable pub reset : States → States
reset d = []

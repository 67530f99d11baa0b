-- ===== src/Engine/Attempts.antt =====
-- engine/attempt-policy.ts: the number of the attempt that a step is started with.
use dokion.Base.{ℕ, ◌+◌, ◌≤◌, true, false, ok, ◌≡◌, ◌or◌, arith}
use dokion.Model.State.{StepState}
use dokion.Engine.Guards.{next_execution_attempt, is_active, max_safe_integer}

-- An attempt that is granted is at least the first. A step that is in progress or waits for an
-- approval keeps its attempt; any other one gets the next. The attempts before it were a safe
-- integer.
pub next_execution_attempt-granted :
    (s : StepState) (n : ℕ)
    → next_execution_attempt s ≡ ok n
    → (1 ≤ n)
      × ((s.attempts or 0) ≤ max_safe_integer)
      × (is_active s.status ≡ true → n ≡ (s.attempts or 0))
      × (is_active s.status ≡ false → n ≡ (s.attempts or 0) + 1)
unfolding next_execution_attempt
next_execution_attempt-granted s n h =
    (ground arith, ground arith, (λ a. ground arith), (λ a. ground arith))

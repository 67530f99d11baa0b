-- ===== src/Autopilot/LimitLaws.antt =====
-- autopilot/run-budget.ts and autopilot/retry-policy.ts: what they let pass.
use dokion.Base.{
  subst, sym, ap, ◌∙◌, ◌*◌, ◌^◌, ◌+◌, min, ℕ, ◌+◌, ◌*◌, ◌^◌, ◌<◌, ◌≤◌, min, true, false, Option,
  none, some, ◌≡◌, arith, ◌or◌,
}
use native.Mathlib.Nat.{pow-suc}
use dokion.Autopilot.Limits.{
  RetryContext, evaluate_retry_eligibility, half_delay, BudgetUsage, BudgetLimits,
  check_run_budgets, over, reached,
}

-- what each kind of limit promises of the usage
abbrev pub AtMost : Option ℕ → ℕ → Type 0
AtMost none used = Unit
AtMost (some limit) used = used ≤ limit

abbrev pub Below : Option ℕ → ℕ → Type 0
Below none used = Unit
Below (some limit) used = used < limit

over-AtMost : (l : Option ℕ) (n : ℕ) → over l n ≡ false → AtMost l n
over-AtMost none n h = tt
over-AtMost (some l) n h = ground arith

reached-Below : (l : Option ℕ) (n : ℕ) → reached l n ≡ false → Below l n
reached-Below none n h = tt
reached-Below (some l) n h = ground arith

-- If no budget is reported as exceeded, then every limit that is set holds: the wall time, the
-- findings, the evidence and the changed lines are at most their limits, and the commands, retries
-- and repairs are below theirs, so that one more can be made.
pub check_run_budgets-within :
    (u : BudgetUsage) (l : BudgetLimits)
    → check_run_budgets u l ≡ none
    → AtMost l.max_wall_time_seconds u.wall_time_seconds
      × Below l.max_commands u.commands_run
      × Below l.max_retries u.retries_attempted
      × Below l.max_repairs u.repairs_attempted
      × AtMost l.max_findings u.findings_count
      × AtMost l.max_evidence_bytes u.evidence_size_bytes
      × AtMost l.max_changed_lines u.changed_lines_count
unfolding check_run_budgets
check_run_budgets-within u l h = (
  over-AtMost _ _ (ground arith),
  reached-Below _ _ (ground arith),
  reached-Below _ _ (ground arith),
  reached-Below _ _ (ground arith),
  over-AtMost _ _ (ground arith),
  over-AtMost _ _ (ground arith),
  over-AtMost _ _ (ground arith),
)

min-le : (x m : ℕ) → min x m ≤ m
min-le x m = omega arith

min_double : (x m : ℕ) → min (2 * x) m ≡ min (2 * min x m) m
min_double x m = omega arith

double_power : (b n : ℕ) → b * 2 ^ (n + 1) ≡ 2 * (b * 2 ^ n)
double_power b n = grind (arith, pow-suc 2 n)

-- A retry that is granted stays within the maximum of attempts, counts one attempt more, and waits
-- no longer than the maximal delay; the next delay is twice this one, or the maximal one.
pub evaluate_retry_eligibility-granted :
    (c : RetryContext)
    → (evaluate_retry_eligibility c).eligible ≡ true
    → (c.is_retryable ≡ true)
      × ((evaluate_retry_eligibility c).next_attempt ≡ c.attempts + 1)
      × ((evaluate_retry_eligibility c).next_attempt ≤ c.max_attempts)
      × ((evaluate_retry_eligibility c).half_delay_ms ≤ 2 * (c.max_delay_ms or 30000))
      × (half_delay (record c { attempts = c.attempts + 1 })
          ≡ min (2 * (evaluate_retry_eligibility c).half_delay_ms) (2 * (c.max_delay_ms or 30000)))
unfolding evaluate_retry_eligibility
evaluate_retry_eligibility-granted c h =
    let delay : (evaluate_retry_eligibility c).half_delay_ms ≡ half_delay c = ground arith in
    let cap = 2 * (c.max_delay_ms or 30000) in
    (
      ground arith,
      ground arith,
      ground arith,
      subst (λ d. d ≤ cap) (sym delay) (min-le ((c.base_delay_ms or 1000) * 2 ^ c.attempts) cap),
      ap (λ d. min d cap) (double_power (c.base_delay_ms or 1000) c.attempts)
          ∙ min_double ((c.base_delay_ms or 1000) * 2 ^ c.attempts) cap
          ∙ ap (λ d. min (2 * d) cap) (sym delay),
    )

-- ===== src/Autopilot/Limits.antt =====
-- autopilot/retry-policy.ts, autopilot/run-budget.ts and autopilot/stale-run.ts.
use dokion.Base.{
  ℕ, ◌+◌, ◌*◌, ◌^◌, min, String, Bool, true, false, not, ◌&&◌, List, [], ◌∷◌, ◌++◌, Option, none,
  some, ◌==◌, ltb, leb, ◌or◌, is_empty, if◌then◌else◌,
}
use dokion.Model.State.{DokionState}

pub record RetryContext : Type 0 where
  pub is_retryable : Bool
  pub attempts : ℕ
  pub max_attempts : ℕ
  pub base_delay_ms : Option ℕ
  pub max_delay_ms : Option ℕ

-- The delay is in half milliseconds: before the first attempt the source takes half of the base.
pub record RetryDecision : Type 0 where
  pub eligible : Bool
  pub next_attempt : ℕ
  pub half_delay_ms : ℕ

-- twice `Math.min(baseDelayMs * Math.pow(2, attempts - 1), maxDelayMs)`
abbrev pub half_delay : RetryContext → ℕ
half_delay c = min ((c.base_delay_ms or 1000) * 2 ^ c.attempts) (2 * (c.max_delay_ms or 30000))

unfoldable pub evaluate_retry_eligibility : RetryContext → RetryDecision
evaluate_retry_eligibility c =
    if not c.is_retryable
    then record { eligible = false; next_attempt = c.attempts; half_delay_ms = 0 }
    else if leb c.max_attempts c.attempts
    then record { eligible = false; next_attempt = c.attempts; half_delay_ms = 0 }
    else record { eligible = true; next_attempt = c.attempts + 1; half_delay_ms = half_delay c }

pub record BudgetLimits : Type 0 where
  pub max_wall_time_seconds : Option ℕ
  pub max_commands : Option ℕ
  pub max_retries : Option ℕ
  pub max_repairs : Option ℕ
  pub max_findings : Option ℕ
  pub max_evidence_bytes : Option ℕ
  pub max_changed_lines : Option ℕ

pub record BudgetUsage : Type 0 where
  pub wall_time_seconds : ℕ
  pub commands_run : ℕ
  pub retries_attempted : ℕ
  pub repairs_attempted : ℕ
  pub findings_count : ℕ
  pub evidence_size_bytes : ℕ
  pub changed_lines_count : ℕ

pub data BudgetName : Type 0 where
  wall_time commands retries repairs findings evidence_bytes changed_lines : BudgetName

-- `limits.… !== undefined && usage.… > limits.…`, and the one with `>=`
abbrev pub over : Option ℕ → ℕ → Bool
over none used = false
over (some limit) used = ltb limit used

abbrev pub reached : Option ℕ → ℕ → Bool
reached none used = false
reached (some limit) used = leb limit used

-- the budget that is exceeded, if one is
unfoldable pub check_run_budgets : BudgetUsage → BudgetLimits → Option BudgetName
check_run_budgets u l =
    if over l.max_wall_time_seconds u.wall_time_seconds
    then some wall_time
    else if reached l.max_commands u.commands_run
    then some commands
    else if reached l.max_retries u.retries_attempted
    then some retries
    else if reached l.max_repairs u.repairs_attempted
    then some repairs
    else if over l.max_findings u.findings_count
    then some findings
    else if over l.max_evidence_bytes u.evidence_size_bytes
    then some evidence_bytes
    else if over l.max_changed_lines u.changed_lines_count
    then some changed_lines
    else none

pub record SystemContext : Type 0 where
  pub current_commit : Option String
  pub playbook_digest : Option String

pub data StaleReason : Type 0 where
  commit_drift playbook_changed : StaleReason

pub record StaleRunClassification : Type 0 where
  pub is_stale : Bool
  pub reasons : List StaleReason

-- both texts are given and not empty, and they differ
abbrev pub drifted : Option String → Option String → Bool
drifted (some a) (some b) = not (a == "") && (not (b == "") && not (a == b))
drifted _ _ = false

abbrev reason_if : Bool → StaleReason → List StaleReason
reason_if b r = if b then r ∷ [] else []

unfoldable pub classify_stale_run : Option DokionState → SystemContext → StaleRunClassification
classify_stale_run none c = record { is_stale = false; reasons = [] }
classify_stale_run (some s) c =
    let reasons =
      reason_if (drifted c.current_commit s.repository_identity.commit) commit_drift
      ++ reason_if (drifted c.playbook_digest (some s.playbook.digest)) playbook_changed in
    record { is_stale = not (is_empty reasons); reasons = reasons }

-- ===== src/Autopilot/Samples.antt =====
-- A playbook of two steps for the tests of the autopilot.
use dokion.Base.{String, List, [], ◌∷◌, Option, none, some}
use dokion.Autopilot.NextAction.{ActionStep, ActionSpec, MinimalPlaybook, verify}
use dokion.Autopilot.Limits.{RetryContext, BudgetLimits, BudgetUsage}
use dokion.Base.{true}

abbrev step : String → Option (List String) → ActionStep
step id depends_on = record {
  id = id;
  stage_id = none;
  command = "run";
  type = none;
  depends_on = depends_on;
}

abbrev pub two_steps : MinimalPlaybook
two_steps = record { id = "p"; steps = step "scan" none ∷ step "report" (some ("scan" ∷ [])) ∷ [] }

abbrev pub scan_action : ActionSpec
scan_action = record {
  id = "act-scan";
  step_id = "scan";
  stage_id = "default";
  command = "run";
  type = verify;
}

abbrev pub usage : BudgetUsage
usage = record {
  wall_time_seconds = 5;
  commands_run = 3;
  retries_attempted = 0;
  repairs_attempted = 0;
  findings_count = 2;
  evidence_size_bytes = 100;
  changed_lines_count = 0;
}

abbrev pub limits : BudgetLimits
limits = record {
  max_wall_time_seconds = some 5;
  max_commands = some 4;
  max_retries = none;
  max_repairs = none;
  max_findings = none;
  max_evidence_bytes = none;
  max_changed_lines = none;
}

abbrev pub second_try : RetryContext
second_try = record {
  is_retryable = true;
  attempts = 1;
  max_attempts = 3;
  base_delay_ms = none;
  max_delay_ms = none;
}

-- ===== src/Engine/Guards.antt =====
-- engine/dependencies.ts and engine/attempt-policy.ts: what must hold before a step runs.
use dokion.Base.{
  ℕ, ◌+◌, ◌-◌, ◌^◌, String, Bool, true, false, not, List, [], map, Option, Result, ok, err,
  ErrorCode, dokion_error, ltb, ◌or◌, keep, flat_map, includes, is_empty, if◌then◌else◌,
}
use dokion.Model.Playbook.{
  PlaybookStep, PlaybookStage, DokionPlaybook, StageExecution, sequential, parallel,
}
use dokion.Model.State.{DokionState, StepState, ExecutionStatus}

-- `dependencyCompleteStatuses`
abbrev pub is_dependency_complete : ExecutionStatus → Bool
is_dependency_complete ExecutionStatus.succeeded = true
is_dependency_complete ExecutionStatus.skipped_inapplicable = true
is_dependency_complete ExecutionStatus.skipped_by_user = true
is_dependency_complete ExecutionStatus.stopped_by_policy = true
is_dependency_complete _ = false

unfoldable pub completed_stage_ids : DokionState → List String
completed_stage_ids state =
    map (λ s. s.id) (keep (λ s. is_dependency_complete s.status) state.stages)

abbrev pub completed_in : List StepState → List String
completed_in steps = map (λ s. s.id) (keep (λ s. is_dependency_complete s.status) steps)

unfoldable pub completed_step_ids : DokionState → List String
completed_step_ids state = flat_map (λ stage. completed_in stage.steps) state.stages

-- the dependencies that are not in the completed set
abbrev pub unmet : List String → Option (List String) → List String
unmet completed depends_on = keep (λ d. not (includes d completed)) (depends_on or [])

abbrev pub require_none : List String → Result (Unit {0})
require_none missing =
    if is_empty missing then ok tt else err (dokion_error ErrorCode.dependency_unmet)

unfoldable pub assert_stage_dependencies : PlaybookStage → DokionState → Result (Unit {0})
assert_stage_dependencies stage state =
    require_none (unmet (completed_stage_ids state) stage.depends_on)

unfoldable pub assert_step_dependencies : PlaybookStep → DokionState → Result (Unit {0})
assert_step_dependencies step state =
    require_none (unmet (completed_step_ids state) step.depends_on)

abbrev is_parallel : StageExecution → Bool
is_parallel sequential = false
is_parallel parallel = true

unfoldable pub assert_sequential_execution : DokionPlaybook → Result (Unit {0})
assert_sequential_execution playbook =
    if is_empty (keep (λ s. is_parallel s.execution) playbook.stages)
    then ok tt
    else err (dokion_error ErrorCode.unsupported_execution)

abbrev pub max_safe_integer : ℕ
max_safe_integer = 2 ^ 53 - 1

abbrev pub is_active : ExecutionStatus → Bool
is_active ExecutionStatus.in_progress = true
is_active ExecutionStatus.awaiting_approval = true
is_active _ = false

-- Attempts that the state holds are not negative: the state's schema says so.
unfoldable pub next_execution_attempt : StepState → Result ℕ
next_execution_attempt state =
    let attempts = state.attempts or 0 in
    if ltb max_safe_integer attempts
    then err (dokion_error ErrorCode.invalid_state)
    else if is_active state.status
    then (if ltb attempts 1 then err (dokion_error ErrorCode.invalid_state) else ok attempts)
    else ok (attempts + 1)

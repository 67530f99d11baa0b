-- ===== src/Autopilot/NextAction.antt =====
-- autopilot/next-action.ts and autopilot/types.ts. Messages and the labels of the action are left
-- out, but for the step, its stage, command and type.
use Prim.Native.String
use dokion.Base.{
  ℕ, String, Bool, true, false, List, [], ◌∷◌, map, keep, flat_map, every, includes, Option, none,
  some, ◌or◌, if◌then◌else◌,
}
use dokion.Model.State.{RunStatus, ExecutionStatus, DokionState, StepState}

pub data ActionType : Type 0 where
  verify repair analysis gate : ActionType

-- `PlaybookStep` of this file, which is not the playbook's
pub record ActionStep : Type 0 where
  pub id : String
  pub stage_id : Option String
  pub command : String
  pub type : Option ActionType
  pub depends_on : Option (List String)

pub record MinimalPlaybook : Type 0 where
  pub id : String
  pub steps : List ActionStep

pub data StopReason : Type 0 where
  no_active_playbook playbook_completed awaiting_approval failure_stop dependency_blocked :
      StopReason

pub record ActionSpec : Type 0 where
  pub id : String
  pub step_id : String
  pub stage_id : String
  pub command : String
  pub type : ActionType

pub data NextActionResult : Type 0 where
  action_selected : ActionSpec → (revision : ℕ) → NextActionResult
  stop_reason : StopReason → (revision : Option ℕ) → NextActionResult

abbrev pub action_of : ActionType → ActionStep → ActionSpec
action_of default step = record {
  id = String.◌++◌ "act-" step.id;
  step_id = step.id;
  stage_id = step.stage_id or "default";
  command = step.command;
  type = step.type or default;
}

abbrev pub is_succeeded : ExecutionStatus → Bool
is_succeeded ExecutionStatus.succeeded = true
is_succeeded _ = false

abbrev pub succeeded_in : List StepState → List String
succeeded_in steps = map (λ s. s.id) (keep (λ s. is_succeeded s.status) steps)

-- `completedStepIds`
abbrev pub succeeded_ids : DokionState → List String
succeeded_ids state = flat_map (λ stage. succeeded_in stage.steps) state.stages

abbrev pub dependencies_met : List String → ActionStep → Bool
dependencies_met completed step = every (λ d. includes d completed) (step.depends_on or [])

-- the loop over the playbook's steps
unfoldable pub first_open : ℕ → List String → List ActionStep → NextActionResult
first_open revision completed [] = stop_reason playbook_completed (some revision)
first_open revision completed (step ∷ steps) =
    let rest = first_open revision completed steps in
    if includes step.id completed
    then rest
    else if dependencies_met completed step
    then action_selected (action_of verify step) revision
    else stop_reason dependency_blocked (some revision)

-- the run's statuses that stop the autopilot
abbrev pub stop_of : RunStatus → Option StopReason
stop_of RunStatus.completed = some playbook_completed
stop_of RunStatus.awaiting_user = some awaiting_approval
stop_of RunStatus.failed = some failure_stop
stop_of RunStatus.stopped = some failure_stop
stop_of RunStatus.blocked = some failure_stop
stop_of _ = none

abbrev pub select_in : ℕ → List String → List ActionStep → Option StopReason → NextActionResult
select_in revision completed steps (some reason) = stop_reason reason (some revision)
select_in revision completed steps none = first_open revision completed steps

unfoldable pub select_in_steps : Option DokionState → List ActionStep → NextActionResult
select_in_steps state [] = stop_reason no_active_playbook none
select_in_steps none (first ∷ steps) = action_selected (action_of analysis first) 0
select_in_steps (some s) (first ∷ steps) =
    select_in s.revision (succeeded_ids s) (first ∷ steps) (stop_of s.run.status)

unfoldable pub select_next_action : Option DokionState → Option MinimalPlaybook → NextActionResult
select_next_action state none = stop_reason no_active_playbook none
select_next_action state (some playbook) = select_in_steps state playbook.steps

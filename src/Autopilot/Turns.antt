-- ===== src/Autopilot/Turns.antt =====
-- autopilot/run-autopilot.ts: the loop over the turns, on the number of turns that are left. The
-- caller's state is changed in place in the source and is part of the result here.
use dokion.Base.{
  ◌==◌, ℕ, zero, suc, ◌+◌, Bool, true, false, List, [], ◌∷◌, ◌++◌, Option, none, some, String,
  if◌then◌else◌, not,
}
use dokion.Model.State.{ExecutionStatus, DokionState, StageState, StepState}
use dokion.Policy.{ApprovalContext, ApprovalPolicyEnum, execute, evaluate_approval_boundary}
use dokion.Autopilot.NextAction.{
  MinimalPlaybook, NextActionResult, ActionSpec, action_selected, stop_reason, StopReason,
  playbook_completed, select_next_action,
}

pub record AutopilotRunResult : Type 0 where
  pub completed : Bool
  pub turns_executed : ℕ
  pub final_state : Option DokionState
  pub last_action : Option NextActionResult

-- `{ id: stepId, status: "SUCCEEDED" }`
abbrev pub pushed_step : String → StepState
pushed_step step_id = record {
  id = step_id;
  status = ExecutionStatus.succeeded;
  mode = none;
  attempts = none;
  started_at = none;
  ended_at = none;
  approval = none;
  findings = none;
  verification_results = none;
  success_conditions_met = none;
  success_conditions_unmet = none;
  evidence = none;
  failure_reason = none;
  applied_failure_policy = none;
  skip_reason = none;
}

-- `stages[0].steps.push(…)`
abbrev pub push_first : String → List StageState → List StageState
push_first step_id [] = []
push_first step_id (stage ∷ stages) =
    record stage { steps = stage.steps ++ pushed_step step_id ∷ [] } ∷ stages

unfoldable pub mark_completed : String → Option DokionState → Option DokionState
mark_completed step_id none = none
mark_completed step_id (some s) =
    some (if step_id == "" then s else record s { stages = push_first step_id s.stages })

abbrev pub is_completed : StopReason → Bool
is_completed playbook_completed = true
is_completed _ = false

abbrev pub turn_approval : Bool → ApprovalContext
turn_approval has_user_approval = record {
  policy = ApprovalPolicyEnum.from_playbook;
  has_user_approval = has_user_approval;
  action_type = execute;
  approved_subject = none;
  target_subject = none;
}

module _ (playbook : MinimalPlaybook) (dry_run has_user_approval : Bool) where
  -- the body of the loop after the selection; `rest` is what follows this turn
  abbrev pub take_turn :
      ℕ
      → Option DokionState
      → NextActionResult
      → (ActionSpec → AutopilotRunResult)
      → AutopilotRunResult
  take_turn done state (stop_reason reason revision) rest = record {
    completed = is_completed reason;
    turns_executed = done + 1;
    final_state = state;
    last_action = some (stop_reason reason revision);
  }
  take_turn done state (action_selected action revision) rest =
      let ended : AutopilotRunResult = record {
        completed = false;
        turns_executed = done + 1;
        final_state = state;
        last_action = some (action_selected action revision);
      } in
      if dry_run
      then ended
      else if not (evaluate_approval_boundary (turn_approval has_user_approval)).allowed
      then ended
      else rest action

  -- `turns` are left, `done` were executed before
  unfoldable pub run_turns :
      (turns done : ℕ) → Option DokionState → Option NextActionResult → AutopilotRunResult
  unfolding mark_completed
  run_turns zero done state result = record {
    completed = false;
    turns_executed = done;
    final_state = state;
    last_action = result;
  }
  run_turns (suc turns) done state result =
      let selected = select_next_action state (some playbook) in
      take_turn done state selected
        (λ action. run_turns turns (done + 1) (mark_completed action.step_id state) (some selected))

  unfoldable pub run_autopilot : (max_turns : ℕ) → Option DokionState → AutopilotRunResult
  unfolding run_turns
  run_autopilot max_turns state = run_turns max_turns 0 state none

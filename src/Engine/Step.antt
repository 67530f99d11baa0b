-- ===== src/Engine/Step.antt =====
-- One round of the loop over the steps in `execute` of engine/runtime-engine.ts.
use Prim.Native.String
use dokion.Base.{
  String, Bool, true, false, not, ◌&&◌, [], Result, ok, err, playbook_tainted, ◌or◌, if◌then◌else◌,
  Exec, pure, throw, lift, ◌>>=◌, ◌>>◌,
}
use dokion.Applicability.{evaluate_applicability}
use dokion.Approvals.{is_approved}
use dokion.Events.{step_started, step_succeeded}
use dokion.Model.Json.{end}
use dokion.Model.Playbook.{
  ExecutionMode, analyze, fix_with_approval, fix_automatically, ApprovalPolicy, other, PlaybookStep,
  PlaybookStage, LoadedPlaybook,
}
use dokion.Model.State.{ExecutionStatus, DokionState, StepState}
use dokion.World.{
  Host, World, CapabilityRunResult, CapabilityStatus, succeeded, awaiting_approval, failed,
  StepVerificationBatch, ask, now, note_invocation, load, update_state, append,
}
use dokion.Engine.Guards.{assert_step_dependencies, next_execution_attempt}
use dokion.Engine.States.{find_step_state}
use dokion.Engine.Marks.{no_partial, result_evidence, approval_policy, start_step, succeed_step}
use dokion.Engine.Events.{
  InapplicableOutcome, event_input, step_payload, assert_playbook_unchanged, mark_tainted,
  mark_step_inapplicable, await_approval, fail_step,
}

-- `try { … } catch (error) { … }`: the result as a value
unfoldable pub attempt : {A : Type 0} → Exec World A → Exec World (Result A)
attempt m w = let (r, w') = m w in (ok r, w')

-- `step.approval ?? defaults.approval ?? "BEFORE_WRITE"` asks for no decision on the step
abbrev pub needs_no_decision : ApprovalPolicy → Bool
needs_no_decision ApprovalPolicy.never = true
needs_no_decision ApprovalPolicy.from_playbook = true
needs_no_decision ApprovalPolicy.before_each_fix = true
needs_no_decision _ = false

abbrev pub step_subject : String → String
step_subject step_id = String.◌++◌ "step:" step_id

unfoldable pub step_approval_satisfied : PlaybookStep → LoadedPlaybook → DokionState → Bool
step_approval_satisfied step loaded state =
    if needs_no_decision (approval_policy step loaded)
    then true
    else is_approved state (step_subject step.id)

abbrev pub is_fix : ExecutionMode → Bool
is_fix fix_with_approval = true
is_fix fix_automatically = true
is_fix _ = false

abbrev pub is_closed_stage : ExecutionStatus → Bool
is_closed_stage ExecutionStatus.succeeded = true
is_closed_stage ExecutionStatus.skipped_inapplicable = true
is_closed_stage ExecutionStatus.stopped_by_policy = true
is_closed_stage _ = false

abbrev pub is_closed_step : ExecutionStatus → Bool
is_closed_step ExecutionStatus.succeeded = true
is_closed_step ExecutionStatus.skipped_inapplicable = true
is_closed_step ExecutionStatus.skipped_by_user = true
is_closed_step ExecutionStatus.stopped_by_policy = true
is_closed_step _ = false

-- what one step of the loop leads to: the next step, the next stage, or the end of the run
pub data StepOutcome : Type 0 where
  next_step next_stage : StepOutcome
  return : DokionState → StepOutcome

abbrev pub succeeded_status : ExecutionStatus → Bool
succeeded_status ExecutionStatus.succeeded = true
succeeded_status _ = false

module _ (h : Host) where
  abbrev pub batch_result : StepVerificationBatch → CapabilityRunResult
  batch_result v = record {
    status = if v.passed then succeeded else failed (v.reason or "Verification failed");
    finding_ids = [];
    evidence = v.evidence;
    verification_results = v.verification_results;
  }

  unfoldable pub run_verification_only :
      PlaybookStage → PlaybookStep → DokionState → Exec World CapabilityRunResult
  run_verification_only stage step state = do
    current ← lift (find_step_state state stage.id step.id)
    batch ← ask (λ t. h.execute_step_verification t stage step (current.attempts or 1))
    pure (batch_result batch)

  -- the three-way branch on `step.mode` inside `try`
  unfoldable pub run_by_mode :
      ExecutionMode → PlaybookStage → PlaybookStep → DokionState → Exec World CapabilityRunResult
  run_by_mode analyze stage step state = ask (λ t. h.run_capability t analyze stage step state)
  run_by_mode fix_with_approval stage step state =
      ask (λ t. h.run_capability t fix_with_approval stage step state)
  run_by_mode fix_automatically stage step state =
      ask (λ t. h.run_capability t fix_automatically stage step state)
  run_by_mode _ stage step state = run_verification_only stage step state

  unfoldable pub run_mode :
      PlaybookStage → PlaybookStep → DokionState → Exec World CapabilityRunResult
  unfolding run_by_mode
  run_mode stage step state = do
    note_invocation (record { stage = stage; step = step; given = state })
    run_by_mode step.mode stage step state

  module _ (loaded : LoadedPlaybook) (stage : PlaybookStage) (step : PlaybookStep) where
    -- the end of the loop's body, by the status of the capability's result
    unfoldable pub settle_result : CapabilityStatus → CapabilityRunResult → Exec World StepOutcome
    settle_result (awaiting_approval subject) result = do
      state ← await_approval h stage step loaded subject (result_evidence result)
      pure (return state)
    settle_result (failed reason) result = do
      state ← fail_step h stage step loaded reason (result_evidence result)
      pure (return state)
    settle_result succeeded result = do
      at ← now
      state ← update_state h (succeed_step stage.id step (result_evidence result) at)
      append h (event_input at state.run.id step_succeeded (step_payload stage.id step.id end))
      pure next_step

    unfoldable pub settle : Result CapabilityRunResult → Exec World StepOutcome
    unfolding settle_result
    settle (err e) = do
      state ← fail_step h stage step loaded (h.message e) no_partial
      pure (return state)
    settle (ok result) = settle_result result.status result

    -- from the start of an applicable step on
    unfoldable pub start_applicable : StepState → Exec World StepOutcome
    unfolding settle
    start_applicable step_state = do
      execution_attempt ← lift (next_execution_attempt step_state)
      at ← now
      state ← update_state h (start_step stage.id step.id execution_attempt at)
      append h (event_input at state.run.id step_started (step_payload stage.id step.id end))
      if not (step_approval_satisfied step loaded state) && not (is_fix step.mode)
          then (do
            waiting ← await_approval h stage step loaded (step_subject step.id) no_partial
            pure (return waiting))
          else (do result ← attempt (run_mode stage step state); settle result)

    abbrev pub after_inapplicable : InapplicableOutcome → Exec World StepOutcome
    after_inapplicable InapplicableOutcome.stop_run = do state ← load h; pure (return state)
    after_inapplicable InapplicableOutcome.stop_stage = pure next_stage
    after_inapplicable InapplicableOutcome.continue = pure next_step

    unfoldable pub run_unchanged : DokionState → StepState → Exec World StepOutcome
    unfolding start_applicable
    run_unchanged state step_state = do
      lift (assert_step_dependencies step state)
      result ←
          evaluate_applicability h (state.run.agent or other) (state.profile or [])
            step.applicability
      if not result.applicable
          then (do
            marked ← mark_step_inapplicable h stage step result.reason
            after_inapplicable marked)
          else start_applicable step_state

    unfoldable pub after_digest_check :
        DokionState → StepState → Result (Unit {0}) → Exec World StepOutcome
    unfolding run_unchanged
    after_digest_check state step_state (ok _) = run_unchanged state step_state
    after_digest_check state step_state (err (playbook_tainted observed)) = do
      tainted ← mark_tainted h state observed step.id
      pure (return tainted)
    after_digest_check state step_state (err e) = throw e

    -- the body of the loop over the steps
    unfoldable pub run_step : Exec World StepOutcome
    unfolding after_digest_check
    run_step = do
      state ← load h
      step_state ← lift (find_step_state state stage.id step.id)
      if is_closed_step step_state.status then pure next_step else do
        checked ← attempt (assert_playbook_unchanged h loaded)
        after_digest_check state step_state checked

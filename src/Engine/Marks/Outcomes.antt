-- ===== src/Engine/Marks/Outcomes.antt =====
-- The state changes of `ExecutionEngine` for a stage or step that does not apply, waits or fails, and
-- for a run that is stale or tainted.
use dokion.Base.{◌⧺◌, String, false, List, map, none, some, Result, ok, map_option}
use dokion.Approvals.{latest_decision}
use dokion.Model.Playbook.{FailurePolicy, InapplicablePolicy, PlaybookStep, LoadedPlaybook}
use dokion.Model.State.{
  Time, RunStatus, ExecutionStatus, DokionState, StageState, StepState,
  RepositoryIdentityDifference, Run,
}
use dokion.Engine.States.{◌>>?◌, with_stage, with_step, change_step}
use dokion.Engine.Marks.Progress.{Partial, approval_policy, add_partial, set_run}

abbrev pub inapplicable_status : InapplicablePolicy → ExecutionStatus
inapplicable_status InapplicablePolicy.mark_blocked = ExecutionStatus.blocked
inapplicable_status InapplicablePolicy.stop_stage = ExecutionStatus.stopped_by_policy
inapplicable_status InapplicablePolicy.skip = ExecutionStatus.skipped_inapplicable

-- a step that is not PENDING is left as it is
abbrev pub close_pending : ExecutionStatus → String → Time → StepState → StepState
close_pending status reason at t = elim t.status [
  | ExecutionStatus.pending ↦ record t {
    status = status;
    skip_reason = some reason;
    ended_at = some at;
  }
  | _ ↦ t
]

abbrev pub block_run : InapplicablePolicy → Time → Run → Run
block_run InapplicablePolicy.mark_blocked at r = set_run RunStatus.blocked (some at) r
block_run _ at r = r

abbrev pub stage_inapplicable :
    String → InapplicablePolicy → String → Time → DokionState → Result DokionState
stage_inapplicable stage_id policy reason at state =
    with_stage stage_id
      (λ t. ok (record t {
        reason = some reason;
        ended_at = some at;
        status = inapplicable_status policy;
        steps = map (close_pending (inapplicable_status policy) reason at) t.steps;
      }))
      (record state { run = block_run policy at state.run })

-- what an inapplicable step does to its stage, after the step itself has been marked
abbrev pub stage_of_inapplicable : InapplicablePolicy → String → Time → StageState → StageState
stage_of_inapplicable InapplicablePolicy.mark_blocked reason at t = record t {
  status = ExecutionStatus.blocked;
  reason = some reason;
  ended_at = some at;
}
stage_of_inapplicable InapplicablePolicy.stop_stage reason at t = record t {
  status = ExecutionStatus.stopped_by_policy;
  reason = some reason;
  ended_at = some at;
  steps = map (close_pending ExecutionStatus.stopped_by_policy reason at) t.steps;
}
stage_of_inapplicable InapplicablePolicy.skip reason at t = t

abbrev pub step_inapplicable :
    String → String → InapplicablePolicy → String → Time → DokionState → Result DokionState
step_inapplicable stage_id step_id policy reason at state =
    with_stage stage_id
      (λ stage.
        change_step step_id
          (λ t. record t {
            status = inapplicable_status policy;
            skip_reason = some reason;
            ended_at = some at;
          })
          stage.steps
        >>? λ steps. ok (stage_of_inapplicable policy reason at (record stage { steps = steps })))
      (record state { run = block_run policy at state.run })

abbrev pub await_step :
    String → PlaybookStep → LoadedPlaybook → String → Partial → DokionState → Result DokionState
await_step stage_id step loaded subject p state =
    let decision = latest_decision state subject in
    with_step stage_id step.id
      (λ t. record (add_partial p t) {
        status = ExecutionStatus.awaiting_approval;
        approval = some (record {
          policy = approval_policy step loaded;
          granted = false;
          granted_by = elim decision [ none ↦ none | some d ↦ d.by ];
          granted_at = map_option (λ d. d.at) decision;
          scope = subject;
        });
        failure_reason = some ("Approval required for " ⧺ subject);
      })
      (record state { run = record state.run { status = RunStatus.awaiting_user } })

abbrev failed_step : FailurePolicy → ExecutionStatus
failed_step FailurePolicy.mark_blocked = ExecutionStatus.blocked
failed_step _ = ExecutionStatus.failed

abbrev failed_run : FailurePolicy → RunStatus
failed_run FailurePolicy.mark_blocked = RunStatus.blocked
failed_run _ = RunStatus.failed

abbrev pub fail_step_state :
    String → String → FailurePolicy → String → Partial → Time → DokionState → Result DokionState
fail_step_state stage_id step_id policy reason p at state =
    with_stage stage_id
      (λ stage.
        change_step step_id
          (λ t. record (add_partial p t) {
            status = failed_step policy;
            failure_reason = some reason;
            applied_failure_policy = some policy;
            ended_at = some at;
          })
          stage.steps
        >>? λ steps.
            ok
              (record stage { steps = steps; status = ExecutionStatus.failed; ended_at = some at }))
      (record state { run = set_run (failed_run policy) (some at) state.run })

abbrev pub stale_state : List RepositoryIdentityDifference → Time → DokionState → Result DokionState
stale_state differences at state = ok (record state {
  run = record state.run {
    status = RunStatus.stale;
    ended_at = some at;
    stale = some (record {
      detected_at = at;
      changed_fields = map (λ d. d.field) differences;
      differences = differences;
    });
  };
})

abbrev pub tainted_state : String → String → Time → DokionState → Result DokionState
tainted_state observed before_step at state = ok (record state {
  run = set_run RunStatus.tainted (some at) state.run;
  playbook = record state.playbook {
    tainted = some (record {
      expected = state.playbook.digest;
      observed = observed;
      detected_at = at;
      detected_before_step = before_step;
    });
  };
})

-- ===== src/Engine/Marks/Progress.antt =====
-- The state changes of `ExecutionEngine` while stages and steps start, succeed and close, and what the
-- other ones share.
use dokion.Base.{
  ℕ, String, Bool, true, false, List, [], ◌∷◌, ◌++◌, Option, none, some, Result, ok, ◌or◌, ◌or_try◌,
  map_option, is_empty, every, unique, if◌then◌else◌,
}
use dokion.Model.Playbook.{ApprovalPolicy, FailurePolicy, PlaybookStep, LoadedPlaybook}
use dokion.Model.State.{
  Time, RunStatus, ExecutionStatus, DokionState, StepState, VerificationResult, StepApproval, Run,
}
use dokion.World.{CapabilityRunResult}
use dokion.Engine.States.{with_stage, with_step}

-- the optional argument `partial` of `awaitApproval` and `failStep`
pub record Partial : Type 0 where
  pub evidence : List String
  pub verification_results : List VerificationResult
  pub finding_ids : List String

abbrev pub no_partial : Partial
no_partial = record { evidence = []; verification_results = []; finding_ids = [] }

abbrev pub result_evidence : CapabilityRunResult → Partial
result_evidence r = record {
  evidence = r.evidence;
  verification_results = r.verification_results;
  finding_ids = r.finding_ids;
}

abbrev pub default_approval : LoadedPlaybook → Option ApprovalPolicy
default_approval loaded = elim loaded.playbook.defaults [ none ↦ none | some d ↦ d.approval ]

abbrev pub default_failure_policy : LoadedPlaybook → Option FailurePolicy
default_failure_policy loaded = elim loaded.playbook.defaults [
  | none ↦ none
  | some d ↦ d.failure_policy
]

unfoldable pub failure_policy : PlaybookStep → LoadedPlaybook → FailurePolicy
failure_policy step loaded =
    (step.failure_policy or_try default_failure_policy loaded) or FailurePolicy.stop_stage

abbrev pub approval_policy : PlaybookStep → LoadedPlaybook → ApprovalPolicy
approval_policy step loaded =
    (step.approval or_try default_approval loaded) or ApprovalPolicy.before_write

-- what both `awaitApproval` and `failStep` add to the step, and a success too
abbrev pub add_partial : Partial → StepState → StepState
add_partial p t = record t {
  findings = some (unique ((t.findings or []) ++ p.finding_ids));
  evidence = some (unique ((t.evidence or []) ++ p.evidence));
  verification_results = some ((t.verification_results or []) ++ p.verification_results);
}

abbrev pub set_run : RunStatus → Option Time → Run → Run
set_run status ended r = record r { status = status; ended_at = ended }

-- the stage is entered
abbrev pub enter_stage : String → Time → DokionState → Result DokionState
enter_stage stage_id at = with_stage stage_id (λ t. ok (record t {
  status = ExecutionStatus.in_progress;
  started_at = some (t.started_at or at);
  ended_at = none;
  reason = none;
}))

-- the step is started with the given attempt
abbrev pub start_step : String → String → ℕ → Time → DokionState → Result DokionState
start_step stage_id step_id attempt at state =
    with_step stage_id step_id
      (λ t. record t {
        status = ExecutionStatus.in_progress;
        started_at = some (t.started_at or at);
        ended_at = none;
        attempts = some attempt;
        failure_reason = none;
        skip_reason = none;
      })
      (record state {
        playbook = record state.playbook {
          last_verified_before_step = some step_id;
          verified_at = at;
        };
      })

abbrev met_conditions : PlaybookStep → List String
met_conditions step =
    let declared = step.success_conditions or [] in
    if is_empty declared then "execution_evidence_recorded" ∷ [] else declared

abbrev grant : StepApproval → StepApproval
grant a = record a { granted = true }

abbrev pub succeed_step : String → PlaybookStep → Partial → Time → DokionState → Result DokionState
succeed_step stage_id step p at = with_step stage_id step.id (λ t. record (add_partial p t) {
  status = ExecutionStatus.succeeded;
  ended_at = some at;
  success_conditions_met = some (met_conditions step);
  success_conditions_unmet = some [];
  approval = map_option grant t.approval;
})

-- `step.status === "SUCCEEDED" || step.status.startsWith("SKIPPED_")`
abbrev pub is_done : ExecutionStatus → Bool
is_done ExecutionStatus.succeeded = true
is_done ExecutionStatus.skipped_inapplicable = true
is_done ExecutionStatus.skipped_by_user = true
is_done _ = false

abbrev pub close_stage : String → Time → DokionState → Result DokionState
close_stage stage_id at = with_stage stage_id (λ t. ok (record t {
  status =
      if every (λ s. is_done s.status) t.steps
      then ExecutionStatus.succeeded
      else ExecutionStatus.failed;
  ended_at = some at;
}))

abbrev pub complete_run : Time → DokionState → Result DokionState
complete_run at state = ok (record state { run = set_run RunStatus.completed (some at) state.run })

abbrev pub resume_run : DokionState → Result DokionState
resume_run state = ok (record state { run = set_run RunStatus.running none state.run })

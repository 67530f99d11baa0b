-- ===== src/Readiness/Criteria.antt =====
-- readiness/completion.ts: the data of the completion evaluator, and the tests on steps, gates,
-- findings and lanes that its criteria are made of.
use dokion.Base.{
  ℕ, String, Bool, true, false, not, ◌&&◌, ◌||◌, List, [], ◌∷◌, every, flat_map, length, is_empty,
  Option, none, some, is_some, ◌or◌, ◌==◌, eqb, leb, if◌then◌else◌,
}
use dokion.Model.Playbook.{ApprovalPolicy, PlaybookStep, DokionPlaybook}
use dokion.Model.State.{
  RunStatus, ExecutionStatus, DokionState, StepState, VerificationResult, GateStatus,
  ReleaseGateState, LaneStatus, CoverageLaneState,
}

pub data CompletionCriterionId : Type 0 where
  all_required_steps_succeeded all_verification_commands_passed : CompletionCriterionId
  all_release_gates_passed no_blocking_findings_open : CompletionCriterionId
  required_approvals_recorded declared_manual_reviews_complete : CompletionCriterionId
  results_tied_to_commit capability_manifest_reported : CompletionCriterionId
  execution_order_reported skipped_steps_reported : CompletionCriterionId
  unapplied_recommendations_reported playbook_digest_stable : CompletionCriterionId
  no_unacknowledged_blocking_lane readiness_statement_qualified : CompletionCriterionId

-- the place of a criterion among all, in the order of their names
abbrev pub rank : CompletionCriterionId → ℕ
rank all_release_gates_passed = 0
rank all_required_steps_succeeded = 1
rank all_verification_commands_passed = 2
rank capability_manifest_reported = 3
rank declared_manual_reviews_complete = 4
rank execution_order_reported = 5
rank no_blocking_findings_open = 6
rank no_unacknowledged_blocking_lane = 7
rank playbook_digest_stable = 8
rank readiness_statement_qualified = 9
rank required_approvals_recorded = 10
rank results_tied_to_commit = 11
rank skipped_steps_reported = 12
rank unapplied_recommendations_reported = 13

-- `COMPLETION_CRITERIA`
abbrev pub completion_criteria : List CompletionCriterionId
completion_criteria =
    all_required_steps_succeeded ∷ all_verification_commands_passed ∷ all_release_gates_passed
    ∷ no_blocking_findings_open ∷ required_approvals_recorded ∷ declared_manual_reviews_complete
    ∷ results_tied_to_commit ∷ capability_manifest_reported ∷ execution_order_reported
    ∷ skipped_steps_reported ∷ unapplied_recommendations_reported ∷ playbook_digest_stable
    ∷ no_unacknowledged_blocking_lane ∷ readiness_statement_qualified ∷ []

pub data CompletionCriterionStatus : Type 0 where
  pass fail blocked not_applicable : CompletionCriterionStatus

pub data CompletionFreshness : Type 0 where
  fresh stale unknown : CompletionFreshness

pub record CompletionCriterionResult : Type 0 where
  pub id : CompletionCriterionId
  pub status : CompletionCriterionStatus
  pub freshness : CompletionFreshness

pub data FindingStatus : Type 0 where
  still_open validating approved_for_fix fixing fixed_pending_verification verified
        repair_rejected :
      FindingStatus
  false_positive accepted_risk deferred blocked not_applicable : FindingStatus

-- `severity` is the text of the union, such as "CRITICAL"
pub record NormalizedFinding : Type 0 where
  pub severity : String
  pub status : FindingStatus
  pub blocks_release : Bool

pub record CompletionReportEvidence : Type 0 where
  pub capability_manifest_reported : List String
  pub execution_order_reported : List String
  pub skipped_steps_reported : List String
  pub unapplied_recommendations_reported : List String
  pub readiness_statement_qualified : List String

pub record CompletionEvaluationInput : Type 0 where
  pub state : DokionState
  pub playbook : DokionPlaybook
  pub findings : List NormalizedFinding
  pub report_evidence : CompletionReportEvidence
  pub current_commit : String
  pub current_playbook_digest : String

pub record CompletionEvaluation : Type 0 where
  pub claimed : Bool
  pub final_commit : Option String
  pub criteria : List CompletionCriterionResult
  pub missing_required : List CompletionCriterionId
  pub failing_required : List CompletionCriterionId

abbrev pub is_terminal : ExecutionStatus → Bool
is_terminal ExecutionStatus.succeeded = true
is_terminal ExecutionStatus.skipped_inapplicable = true
is_terminal _ = false

abbrev pub is_closed_finding : FindingStatus → Bool
is_closed_finding FindingStatus.verified = true
is_closed_finding FindingStatus.false_positive = true
is_closed_finding FindingStatus.accepted_risk = true
is_closed_finding FindingStatus.deferred = true
is_closed_finding FindingStatus.not_applicable = true
is_closed_finding _ = false

-- `new Map(…)` and `get`: of several entries of a key, the last one counts
abbrev pub last_with {ℓ} : {A : Type ℓ} → (A → Bool) → List A → Option A
last_with p [] = none
last_with p (x ∷ xs) = elim (last_with p xs) [
  | some y ↦ some y
  | none ↦ if p x then some x else none
]

abbrev pub all_steps : DokionState → List StepState
all_steps state = flat_map (λ s. s.steps) state.stages

abbrev pub step_by_id : DokionState → String → Option StepState
step_by_id state id = last_with (λ s. s.id == id) (all_steps state)

abbrev pub gate_by_id : DokionState → String → Option ReleaseGateState
gate_by_id state id = last_with (λ g. g.id == id) (state.release_gates or [])

abbrev pub declared_steps : DokionPlaybook → List PlaybookStep
declared_steps playbook = flat_map (λ s. s.steps) playbook.stages

-- `step.required !== false`
abbrev pub is_required : PlaybookStep → Bool
is_required step = step.required or true

abbrev pub is_done : Option StepState → Bool
is_done none = false
is_done (some s) = is_terminal s.status

abbrev pub run_completed : RunStatus → Bool
run_completed RunStatus.completed = true
run_completed _ = false

abbrev pub results_of : Option StepState → List VerificationResult
results_of none = []
results_of (some s) = s.verification_results or []

abbrev pub verification_passed : DokionState → PlaybookStep → Bool
verification_passed state step =
    let commands = step.verification or [] in
    let results = results_of (step_by_id state step.id) in
    is_empty commands
    || (leb (length commands) (length results) && every (λ r. eqb r.exit_code 0) results)

abbrev pub is_pass : GateStatus → Bool
is_pass GateStatus.pass = true
is_pass _ = false

abbrev pub gate_passed : Option ReleaseGateState → Bool
gate_passed none = false
gate_passed (some g) = is_pass g.status

abbrev pub is_never : ApprovalPolicy → Bool
is_never ApprovalPolicy.never = true
is_never _ = false

abbrev pub was_granted : Option StepState → Bool
was_granted none = false
was_granted (some s) = elim s.approval [ none ↦ false | some a ↦ a.granted ]

abbrev pub approval_recorded : DokionState → PlaybookStep → Bool
approval_recorded state step = elim step.approval [
  | none ↦ true
  | some policy ↦ is_never policy || was_granted (step_by_id state step.id)
]

-- `value === text` where the value may be missing
abbrev pub is_text : Option String → String → Bool
is_text none s = false
is_text (some t) s = t == s

abbrev pub baseline_commit : DokionState → Option String
baseline_commit state = elim state.baseline [ none ↦ none | some b ↦ b.commit ]

abbrev pub not_tainted : RunStatus → Bool
not_tainted RunStatus.tainted = false
not_tainted _ = true

abbrev pub lane_complete : CoverageLaneState → Bool
lane_complete lane =
    elim lane.status [ LaneStatus.assigned ↦ true | _ ↦ false ] || is_some lane.acknowledged_by

abbrev pub is_skipped : ExecutionStatus → Bool
is_skipped ExecutionStatus.skipped_inapplicable = true
is_skipped ExecutionStatus.skipped_by_user = true
is_skipped _ = false

abbrev pub was_skipped : Option StepState → Bool
was_skipped none = false
was_skipped (some s) = is_skipped s.status

abbrev pub reported : List String → Bool → Bool
reported evidence required = not required || not (is_empty evidence)

-- ===== src/Policy/Tests.antt =====
-- Tests of the policies.
use dokion.Base.{◌<◌, ◌≡◌, ◌≢◌, refl, ◌↔◌, ◌⊎◌, true, false, some}
use dokion.Model.Playbook.{FailurePolicy}
use dokion.Model.State.{RunStatus, ExecutionStatus}
use dokion.Policy.Failure.{FailureContext, retry, evaluate_failure_transition}
use dokion.Policy.Approval.{
  ApprovalPolicyEnum, write, ApprovalContext, evaluate_approval_boundary, differ,
}
use dokion.Policy.FailureLaws.{evaluate_failure_transition_lem}
use dokion.Policy.ApprovalLaws.{Guarded, evaluate_approval_boundary_sound}

abbrev second_of_three : FailureContext
second_of_three = record {
  policy = FailurePolicy.stop_pipeline;
  attempts = some 2;
  max_attempts = some 3;
}

evaluate_failure_transition_example :
    (((evaluate_failure_transition second_of_three).next_run_status ≡ RunStatus.running)
      ↔ ((2 < 3) ⊎ (FailurePolicy.stop_pipeline ≡ FailurePolicy.continue)))
    × (((evaluate_failure_transition second_of_three).action ≡ retry) ↔ (2 < 3))
    × (((evaluate_failure_transition second_of_three).next_step_status
          ≡ ExecutionStatus.in_progress)
        ↔ (2 < 3))
evaluate_failure_transition_example = evaluate_failure_transition_lem second_of_three

abbrev approved_write : ApprovalContext
approved_write = record {
  policy = ApprovalPolicyEnum.before_write;
  has_user_approval = true;
  action_type = write;
  approved_subject = some "step:a";
  target_subject = some "step:a";
}

approved_write-allowed : (evaluate_approval_boundary approved_write).allowed ≡ true
unfolding evaluate_approval_boundary
approved_write-allowed = refl

evaluate_approval_boundary_example :
    (ApprovalPolicyEnum.before_write ≢ ApprovalPolicyEnum.never)
    × (Guarded ApprovalPolicyEnum.before_write write → true ≡ true)
    × (true ≡ true → differ (some "step:a") (some "step:a") ≡ false)
    × ((evaluate_approval_boundary approved_write).requires_approval ≡ false)
evaluate_approval_boundary_example =
    evaluate_approval_boundary_sound approved_write approved_write-allowed

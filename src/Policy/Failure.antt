-- ===== src/Policy/Failure.antt =====
-- policy/failure-policy.ts. An unknown policy does not occur: the playbook's schema refuses it.
use dokion.Base.{ℕ, Option, ltb, ◌or◌, if◌then◌else◌}
use dokion.Model.Playbook.{FailurePolicy}
use dokion.Model.State.{RunStatus, ExecutionStatus}

pub record FailureContext : Type 0 where
  pub policy : FailurePolicy
  pub attempts : Option ℕ
  pub max_attempts : Option ℕ

pub data FailureAction : Type 0 where
  stop continue await_user block retry : FailureAction

pub record FailureTransitionResult : Type 0 where
  pub next_run_status : RunStatus
  pub next_step_status : ExecutionStatus
  pub action : FailureAction

abbrev pub by_policy : FailurePolicy → FailureTransitionResult
by_policy FailurePolicy.stop_pipeline = record {
  next_run_status = RunStatus.failed;
  next_step_status = ExecutionStatus.failed;
  action = stop;
}
by_policy FailurePolicy.stop_stage = record {
  next_run_status = RunStatus.stopped;
  next_step_status = ExecutionStatus.failed;
  action = stop;
}
by_policy FailurePolicy.continue = record {
  next_run_status = RunStatus.running;
  next_step_status = ExecutionStatus.failed;
  action = continue;
}
by_policy FailurePolicy.request_user_decision = record {
  next_run_status = RunStatus.awaiting_user;
  next_step_status = ExecutionStatus.awaiting_approval;
  action = await_user;
}
by_policy FailurePolicy.mark_blocked = record {
  next_run_status = RunStatus.blocked;
  next_step_status = ExecutionStatus.blocked;
  action = block;
}

unfoldable pub evaluate_failure_transition : FailureContext → FailureTransitionResult
evaluate_failure_transition context =
    if ltb (context.attempts or 1) (context.max_attempts or 1)
    then record {
      next_run_status = RunStatus.running;
      next_step_status = ExecutionStatus.in_progress;
      action = retry;
    }
    else by_policy context.policy

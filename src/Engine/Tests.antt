-- ===== src/Engine/Tests.antt =====
-- Tests of the engine on a playbook of two steps, the second after the first.
use dokion.Base.{ok, true, false, ◌≤◌, ◌+◌, ◌or◌, Post, ◌≡◌, refl, some, [], All}
use dokion.Model.State.{StepState, ExecutionStatus, RunStatus}
use dokion.World.Samples.{run_state, host, world, loaded}
use dokion.Engine.Loop.{continue_loaded, execute}
use dokion.Model.Playbook.{analyze, LoadedPlaybook}
use dokion.World.{initial_step}
use dokion.Engine.Guards.{next_execution_attempt, is_active, max_safe_integer}
use dokion.Engine.Attempts.{next_execution_attempt-granted}
use dokion.Engine.Resumed.{continue_loaded-changed}
use dokion.Engine.Permit.{Permitted}
use dokion.Engine.Permitted.{execute-invoked}

execute-invoked_example :
    All (Permitted host loaded) (execute host loaded (world RunStatus.running)).1.invoked
execute-invoked_example = execute-invoked host loaded (world RunStatus.running) tt

abbrev other_playbook : LoadedPlaybook
other_playbook = record loaded { digest = "q" }

continue_loaded-changed_example :
    Post
      (λ t w'. (w'.stored ≡ some t) × (t.run.status ≡ RunStatus.tainted) × (w'.invoked ≡ []))
      (λ _ w'. w'.invoked ≡ [])
      (continue_loaded host other_playbook (world RunStatus.failed))
continue_loaded-changed_example =
    continue_loaded-changed host other_playbook (world RunStatus.failed)
      (run_state RunStatus.failed) refl refl refl

abbrev waiting_step : StepState
waiting_step = record (initial_step (record { id = "scan"; mode = analyze })) {
  status = ExecutionStatus.awaiting_approval;
  attempts = some 2;
}

waiting_step_granted : next_execution_attempt waiting_step ≡ ok 2
unfolding next_execution_attempt
waiting_step_granted = refl

next_execution_attempt_example :
    (1 ≤ 2)
    × (2 ≤ max_safe_integer)
    × (is_active ExecutionStatus.awaiting_approval ≡ true → 2 ≡ (waiting_step.attempts or 0))
    × (is_active ExecutionStatus.awaiting_approval ≡ false → 2 ≡ (waiting_step.attempts or 0) + 1)
next_execution_attempt_example = next_execution_attempt-granted waiting_step 2 waiting_step_granted

-- ===== src/Autopilot/Tests.antt =====
-- Tests of the autopilot.
use dokion.Base.{◌+◌, ◌*◌, ◌<◌, ◌≤◌, min, [], ◌≡◌, ◌≢◌, refl, true, false, some, none, arith}
use dokion.Model.State.{RunStatus, RepositoryIdentity}
use dokion.Engine.{compare_repository_identities}
use dokion.Autopilot.Drift.{classify_stale_run-differs}
use dokion.World.Samples.{run_state}
use dokion.Autopilot.NextAction.{
  ActionStep, first_open, action_selected, select_in_steps, select_next_action, dependencies_met,
  succeeded_ids, stop_of,
}
use dokion.Autopilot.Limits.{
  SystemContext, classify_stale_run, check_run_budgets, evaluate_retry_eligibility, half_delay,
}
use dokion.Autopilot.Turns.{run_autopilot}
use dokion.Autopilot.Selected.{FirstOpen, select_next_action-selected}
use dokion.Autopilot.LimitLaws.{
  AtMost, Below, check_run_budgets-within, evaluate_retry_eligibility-granted,
}
use dokion.Autopilot.Completes.{run_autopilot-completed, run_autopilot-fresh}
use dokion.Autopilot.Samples.{two_steps, scan_action, usage, limits, second_try}

scan-selected :
    select_next_action (some (run_state RunStatus.running)) (some two_steps)
    ≡ action_selected scan_action 4
unfolding select_next_action select_in_steps first_open
scan-selected = refl

select_next_action_example :
    (step : ActionStep) × FirstOpen
      (succeeded_ids (run_state RunStatus.running))
      two_steps.steps
      step
    × (dependencies_met (succeeded_ids (run_state RunStatus.running)) step ≡ true)
    × ("scan" ≡ step.id)
    × (4 ≡ (run_state RunStatus.running).revision)
    × (stop_of RunStatus.running ≡ none)
select_next_action_example =
    select_next_action-selected (run_state RunStatus.running) two_steps scan_action 4 scan-selected

within : check_run_budgets usage limits ≡ none
unfolding check_run_budgets
within = refl

check_run_budgets_example :
    (5 ≤ 5)
    × (3 < 4)
    × Below none 0
    × Below none 0
    × AtMost none 2
    × AtMost none 100
    × AtMost none 0
check_run_budgets_example = check_run_budgets-within usage limits within

granted : (evaluate_retry_eligibility second_try).eligible ≡ true
unfolding evaluate_retry_eligibility
granted = refl

evaluate_retry_eligibility_example :
    (true ≡ true)
    × ((evaluate_retry_eligibility second_try).next_attempt ≡ 1 + 1)
    × ((evaluate_retry_eligibility second_try).next_attempt ≤ 3)
    × ((evaluate_retry_eligibility second_try).half_delay_ms ≤ 2 * 30000)
    × (half_delay (record second_try { attempts = 2 })
        ≡ min (2 * (evaluate_retry_eligibility second_try).half_delay_ms) (2 * 30000))
evaluate_retry_eligibility_example = evaluate_retry_eligibility-granted second_try granted

run_autopilot_example :
    (run_autopilot two_steps false true 3 (some (run_state RunStatus.running))).completed ≡ true
run_autopilot_example =
    run_autopilot-completed two_steps true (λ e. cc) (refl, (refl, tt)) 3
      (run_state RunStatus.running) (λ e. cc) refl (refl, (refl, tt)) (omega arith)

run_autopilot-fresh_example : (run_autopilot two_steps false true 50 none).completed ≡ false
run_autopilot-fresh_example = run_autopilot-fresh two_steps false true 50

-- the repository of the run, under another playbook
abbrev moved : RepositoryIdentity
moved = record (run_state RunStatus.running).repository_identity { playbook_digest = "q" }

abbrev now_there : SystemContext
now_there = record { current_commit = none; playbook_digest = some "q" }

moved_stale : (classify_stale_run (some (run_state RunStatus.running)) now_there).is_stale ≡ true
unfolding classify_stale_run
moved_stale = refl

classify_stale_run_example :
    compare_repository_identities (run_state RunStatus.running).repository_identity moved ≢ []
classify_stale_run_example =
    classify_stale_run-differs (run_state RunStatus.running) now_there moved refl refl refl
      moved_stale

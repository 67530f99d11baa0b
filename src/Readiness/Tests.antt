-- ===== src/Readiness/Tests.antt =====
-- Tests of the completion evaluator and of the readiness reports, on a run of one step and one gate.
use dokion.Base.{
  map, List, Result, ok, err, plain_error, ◌↔◌, ◌==◌, if◌then◌else◌, [], ◌∷◌, keep, All, some, none,
  true, false, ◌≡◌, refl, ◌⊎◌, ◌or◌,
}
use dokion.Model.Playbook.{
  ReadinessCap, assigned, analyze, sequential, PlaybookStep, DokionPlaybook,
}
use dokion.Model.State.{RunStatus, ExecutionStatus, DokionState, GateStatus, ReleaseGateState}
use dokion.World.{initial_step}
use dokion.World.Samples.{run_state}
use dokion.Readiness.Criteria.{
  CompletionEvaluationInput, FindingStatus, is_done, is_required, declared_steps, step_by_id,
  gate_by_id, gate_passed, is_closed_finding, baseline_commit,
}
use dokion.Readiness.Coverage.{CoverageInput, evaluate_coverage, blocking_lanes}
use dokion.Readiness.Lanes.{Covered, evaluate_coverage-Covered}
use dokion.Readiness.Statement.{
  Texts, ReadinessStatus, QualifiedReadinessInput, QualifiedReadinessStatement,
  format_readiness_statement, SignoffStatus, PromotionSignoffInput, PromotionSignoffRecord,
  generate_promotion_signoff_record,
}
use dokion.Readiness.Ready.{
  Acceptable, format_readiness_statement-Acceptable, generate_promotion_signoff_record-passed,
}
use dokion.Readiness.Gates.{
  GatesHost, GatesInput, evaluate_release_gates, evaluate_gate, condition_passed,
}
use dokion.Readiness.Passed.{AllJudged, evaluate_release_gates-AllJudged}
use dokion.Readiness.Completion.{evaluate_completion}
use dokion.Readiness.Claims.{evaluate_completion-claimed}

abbrev scan : PlaybookStep
scan = record {
  id = "scan";
  capability = record { type = "skill"; id = "scan" };
  mode = analyze;
  required = none;
  depends_on = none;
  applicability = none;
  coverage_lanes = none;
  approval = none;
  verification = none;
  success_conditions = none;
  failure_policy = none;
}

abbrev playbook : DokionPlaybook
playbook = record {
  defaults = none;
  stages =
      record {
        id = "audit";
        execution = sequential;
        depends_on = none;
        applicability = none;
        steps = scan ∷ [];
      }
      ∷ [];
  release_gates =
      some (record { id = "tests"; command = some "test"; condition = none; blocking = true } ∷ []);
  coverage_policy = none;
}

abbrev state : DokionState
state =
    let s = run_state RunStatus.completed in
    record s {
      repository_identity = record s.repository_identity { commit = some "c" };
      baseline =
          some
            (record { commit = some "c"; branch = none; worktree_clean = none; captured_at = 0 });
      stages =
          record {
            id = "audit";
            status = ExecutionStatus.succeeded;
            started_at = none;
            ended_at = none;
            reason = none;
            steps =
                record (initial_step (record { id = "scan"; mode = analyze })) {
                  status = ExecutionStatus.succeeded;
                }
                ∷ [];
          }
          ∷ [];
      release_gates = some (
          record {
            id = "tests";
            status = GateStatus.pass;
            blocking = true;
            exit_code = some 0;
            artifact = none;
          }
          ∷ []);
    }

abbrev input : CompletionEvaluationInput
input = record {
  state = state;
  playbook = playbook;
  findings =
      record { severity = "HIGH"; status = FindingStatus.verified; blocks_release = true } ∷ [];
  report_evidence = record {
    capability_manifest_reported = "m" ∷ [];
    execution_order_reported = "o" ∷ [];
    skipped_steps_reported = [];
    unapplied_recommendations_reported = [];
    readiness_statement_qualified = "r" ∷ [];
  };
  current_commit = "c";
  current_playbook_digest = "p";
}

input-claimed : (evaluate_completion input).claimed ≡ true
unfolding evaluate_completion
input-claimed = refl

evaluate_completion_example :
    (RunStatus.completed ≡ RunStatus.completed)
    × All (λ s. is_done (step_by_id state s.id) ≡ true) (keep is_required (declared_steps playbook))
    × All (λ g. gate_passed (gate_by_id state g.id) ≡ true) (playbook.release_gates or [])
    × All (λ f. (f.blocks_release ≡ false) ⊎ (is_closed_finding f.status ≡ true)) input.findings
    × (baseline_commit state ≡ some "c")
    × (state.repository_identity.commit ≡ some "c")
    × (state.playbook.tainted ≡ none)
    × (state.playbook.digest ≡ "p")
evaluate_completion_example = evaluate_completion-claimed input input-claimed

-- a lane that blocks, assigned in full to the step `scan`
abbrev covered_playbook : DokionPlaybook
covered_playbook = record playbook {
  stages =
      record {
        id = "audit";
        execution = sequential;
        depends_on = none;
        applicability = none;
        steps =
            record scan { coverage_lanes = some (record { lane = "deps"; status = assigned } ∷ []) }
            ∷ [];
      }
      ∷ [];
  coverage_policy = some (record {
    blocking_lanes = some ("deps" ∷ []);
    acknowledged_gaps = none;
    unassigned_lane_readiness_cap = none;
  });
}

abbrev coverage_input : CoverageInput
coverage_input = record {
  manifest = record { gaps = none };
  playbook = covered_playbook;
  state = state;
}

not_capped : (evaluate_coverage coverage_input).readiness_cap ≡ none
unfolding evaluate_coverage
not_capped = refl

abbrev uncovered_input : CoverageInput
uncovered_input = record coverage_input { playbook = record covered_playbook { stages = [] } }

capped : (evaluate_coverage uncovered_input).readiness_cap ≡ some ReadinessCap.conditionally_ready
unfolding evaluate_coverage
capped = refl

evaluate_coverage-Covered_example :
    ((evaluate_coverage coverage_input).readiness_cap ≡ none)
    ↔ All (Covered state (declared_steps covered_playbook)) (blocking_lanes coverage_input)
evaluate_coverage-Covered_example = evaluate_coverage-Covered coverage_input

abbrev texts : Texts
texts = record {
  sort = λ xs. xs;
  is_blank = λ s. s == "";
  is_digest = λ _. true;
  is_date = λ _. true;
}

abbrev readiness : QualifiedReadinessInput
readiness = record {
  subject = "app";
  status = ReadinessStatus.ready_for_production;
  repository_commit = "c";
  playbook_digest = "p";
  capability_lock_digest = "l";
  gates = state.release_gates or [];
  coverage = (evaluate_coverage coverage_input).lanes;
  degradations = [];
  exclusions = [];
  evaluated_at = "now";
}

format_readiness_statement-Acceptable_example :
    ((s : QualifiedReadinessStatement) × (format_readiness_statement texts readiness ≡ ok s))
    ↔ Acceptable texts readiness
format_readiness_statement-Acceptable_example =
    format_readiness_statement-Acceptable texts readiness (λ xs. refl)

abbrev signoff_input : PromotionSignoffInput
signoff_input = record {
  version = "1";
  commit = "c";
  claimed_surfaces = "cli" ∷ [];
  playbook_digest = "p";
  lock_digest = "l";
  gates = record { id = "tests"; status = SignoffStatus.pass; digest = none } ∷ [];
  reviewer = "r";
}

generate_promotion_signoff_record-passed_example :
    ((r : PromotionSignoffRecord) × (generate_promotion_signoff_record
          (λ xs. xs)
          (λ _. "d")
          "now"
          signoff_input
        ≡ ok r))
    ↔ All (λ g. g.status ≡ SignoffStatus.pass) signoff_input.gates
generate_promotion_signoff_record-passed_example =
    generate_promotion_signoff_record-passed (λ xs. xs) (λ _. "d") "now" signoff_input

abbrev gates_host : GatesHost
gates_host = record {
  open_findings_severity = λ text. if text == "open_findings.HIGH == 0" then some "HIGH" else none;
  safe_segment = λ s. s;
  run_command = λ n command.
      if command == "test"
      then ok 0
      else if command == "slow"
      then err (plain_error "timed out")
      else ok 1;
}

abbrev gates_input : GatesInput
gates_input = record {
  playbook = record playbook {
    release_gates = some (
        record { id = "tests"; command = some "test"; condition = none; blocking = true }
        ∷ record {
          id = "findings";
          command = none;
          condition = some "open_findings.HIGH == 0";
          blocking = true;
        }
        ∷ record { id = "lint"; command = some "lint"; condition = none; blocking = false }
        ∷ []);
  };
  state = state;
  findings =
      record { severity = "HIGH"; status = FindingStatus.verified; blocks_release = true } ∷ [];
  force_rerun = true;
  evidence_attempt = "verify-1";
}

abbrev statuses_of : Result (List ReleaseGateState) → Result (List GateStatus)
statuses_of (ok rs) = ok (map (λ g. g.status) rs)
statuses_of (err e) = err e

gate_statuses :
    statuses_of (evaluate_release_gates gates_host gates_input)
    ≡ ok (GateStatus.pass ∷ GateStatus.pass ∷ GateStatus.fail ∷ [])
unfolding evaluate_release_gates evaluate_gate condition_passed
gate_statuses = refl

-- a command that throws leaves no result of the gates before it
slow_gate :
    evaluate_release_gates gates_host (record gates_input {
      playbook = record playbook {
        release_gates = some (
            record { id = "tests"; command = some "test"; condition = none; blocking = true }
            ∷ record { id = "slow"; command = some "slow"; condition = none; blocking = true }
            ∷ []);
      };
    })
    ≡ err (plain_error "timed out")
unfolding evaluate_release_gates evaluate_gate condition_passed
slow_gate = refl

evaluate_release_gates-AllJudged_example :
    AllJudged gates_host gates_input 0
      (gates_input.playbook.release_gates or [])
      (evaluate_release_gates gates_host gates_input)
evaluate_release_gates-AllJudged_example = evaluate_release_gates-AllJudged gates_host gates_input

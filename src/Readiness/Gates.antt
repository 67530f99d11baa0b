-- ===== src/Readiness/Gates.antt =====
-- readiness/release-gates.ts: the gates of a release. The evidence files that a gate writes are not
-- modelled; what a command's program and the regular expressions answer is a parameter.
use dokion.Base.{
  ℕ, ◌+◌, String, Bool, true, false, not, ◌&&◌, ◌||◌, List, [], ◌∷◌, ◌++◌, map, keep, every,
  is_empty, Option, none, some, is_some, ◌or◌, ◌==◌, eqb, if◌then◌else◌, ◌⧺◌, Result, ok, err,
}
use dokion.Model.Playbook.{DokionPlaybook, ReleaseGateDefinition}
use dokion.Model.State.{RunStatus, DokionState, GateStatus, ReleaseGateState, CoverageLaneState}
use dokion.Readiness.Criteria.{
  NormalizedFinding, is_closed_finding, step_by_id, gate_by_id, declared_steps, is_required,
  is_done, is_pass, last_with,
}
use dokion.Readiness.Coverage.{is_assigned}

-- what the text of a condition asks for
pub data Condition : Type 0 where
  no_open_findings : (severity : String) → Condition
  required_steps_complete playbook_not_tainted blocking_lanes_assigned unsupported : Condition

pub record GatesHost : Type 0 where
  -- `/^open_findings\.(CRITICAL|HIGH|MEDIUM|LOW|INFO)\s*==\s*0$/`: the severity of a match
  pub open_findings_severity : String → Option String
  -- `value.replace(/[^a-zA-Z0-9._-]/g, "-")`
  pub safe_segment : String → String
  -- `runCommand` for the gate at a position: the exit code, or what it throws, as on a timeout, a program
  -- that does not start, or a platform that is not supported
  pub run_command : ℕ → String → Result ℕ

pub record GatesInput : Type 0 where
  pub playbook : DokionPlaybook
  pub state : DokionState
  pub findings : List NormalizedFinding
  pub force_rerun : Bool
  -- `input.evidenceAttempt`, or the name that is made for a forced run without one
  pub evidence_attempt : String

abbrev pub active_findings : List NormalizedFinding → String → List NormalizedFinding
active_findings findings severity =
    keep (λ f. f.severity == severity && not (is_closed_finding f.status)) findings

abbrev pub required_steps_are_complete : DokionPlaybook → DokionState → Bool
required_steps_are_complete playbook state =
    every (λ s. not (is_required s) || is_done (step_by_id state s.id)) (declared_steps playbook)

abbrev pub lane_by_name : DokionState → String → Option CoverageLaneState
lane_by_name state lane = last_with (λ l. l.lane == lane) (state.coverage or [])

-- the lanes that the policy or the recorded coverage lets block; a repeated one is tested again
abbrev pub blocking_lane_names : DokionPlaybook → DokionState → List String
blocking_lane_names playbook state =
    (elim playbook.coverage_policy [ none ↦ [] | some p ↦ p.blocking_lanes or [] ])
    ++ map (λ l. l.lane) (keep (λ l. l.blocking) (state.coverage or []))

abbrev pub is_assigned_lane : Option CoverageLaneState → Bool
is_assigned_lane none = false
is_assigned_lane (some l) = is_assigned l.status

abbrev pub is_tainted : RunStatus → Bool
is_tainted RunStatus.tainted = true
is_tainted _ = false

module _ (h : GatesHost) (i : GatesInput) where
  abbrev pub condition_of : String → Condition
  condition_of text = elim (h.open_findings_severity text) [
    | some severity ↦ no_open_findings severity
    | none ↦
        if text == "required_steps_complete == true"
        then required_steps_complete
        else if text == "playbook_tainted == false"
        then playbook_not_tainted
        else if text == "blocking_lanes_assigned == true"
        then blocking_lanes_assigned
        else unsupported
  ]

  -- `passed` of `evaluateCondition`
  unfoldable pub condition_passed : Condition → Bool
  condition_passed (no_open_findings severity) = is_empty (active_findings i.findings severity)
  condition_passed required_steps_complete = required_steps_are_complete i.playbook i.state
  condition_passed playbook_not_tainted =
      not (is_tainted i.state.run.status || is_some i.state.playbook.tainted)
  condition_passed blocking_lanes_assigned =
      every (λ lane. is_assigned_lane (lane_by_name i.state lane))
        (blocking_lane_names i.playbook i.state)
  condition_passed unsupported = false

  abbrev pub status_of : Bool → GateStatus
  status_of passed = if passed then GateStatus.pass else GateStatus.fail

  -- a path below the run's evidence, inside the attempt's directory on a forced run
  abbrev evidence_root : String
  evidence_root =
      let run = ".dokion/evidence/" ⧺ i.state.run.id in
      if i.force_rerun && not (i.evidence_attempt == "")
      then run ⧺ "/verify/" ⧺ i.evidence_attempt ⧺ "/release-gates"
      else run ⧺ "/release-gates"

  abbrev artifact_of : ReleaseGateDefinition → String
  artifact_of g = evidence_root ⧺ "/" ⧺ h.safe_segment g.id ⧺ ".json"

  abbrev pub command_state : ReleaseGateDefinition → ℕ → ReleaseGateState
  command_state g exit_code = record {
    id = g.id;
    status = status_of (eqb exit_code 0);
    blocking = g.blocking;
    exit_code = some exit_code;
    artifact = some (artifact_of g);
  }

  abbrev pub command_result : ReleaseGateDefinition → Result ℕ → Result ReleaseGateState
  command_result g (ok exit_code) = ok (command_state g exit_code)
  command_result g (err e) = err e

  abbrev pub run_gate : ℕ → ReleaseGateDefinition → String → Result ReleaseGateState
  run_gate n g command = command_result g (h.run_command n command)

  -- a gate that has passed before is not run again unless it is forced
  abbrev pub reuse_or_run :
      ℕ → ReleaseGateDefinition → String → Option ReleaseGateState → Result ReleaseGateState
  reuse_or_run n g command none = run_gate n g command
  reuse_or_run n g command (some existing) =
      if not i.force_rerun && is_pass existing.status then ok existing else run_gate n g command

  -- the body of the loop over the definitions
  unfoldable pub evaluate_gate : ℕ → ReleaseGateDefinition → Result ReleaseGateState
  evaluate_gate n g = elim g.command [
    | some command ↦ reuse_or_run n g command (gate_by_id i.state g.id)
    | none ↦ elim g.condition [
      | some text ↦ ok (record {
        id = g.id;
        status = status_of (condition_passed (condition_of text));
        blocking = g.blocking;
        exit_code = none;
        artifact =
            if i.force_rerun && not (i.evidence_attempt == "") then some (artifact_of g) else none;
      })
      | none ↦ ok (record {
        id = g.id;
        status = GateStatus.fail;
        blocking = g.blocking;
        exit_code = none;
        artifact = none;
      })
    ]
  ]

  -- `results.push`; what a gate throws ends the loop without a result
  abbrev pub pushed :
      Result ReleaseGateState → Result (List ReleaseGateState) → Result (List ReleaseGateState)
  pushed (ok r) (ok rs) = ok (r ∷ rs)
  pushed (ok r) (err e) = err e
  pushed (err e) rest = err e

  abbrev pub gates_from : ℕ → List ReleaseGateDefinition → Result (List ReleaseGateState)
  gates_from n [] = ok []
  gates_from n (g ∷ rest) = pushed (evaluate_gate n g) (gates_from (n + 1) rest)

  unfoldable pub evaluate_release_gates : Result (List ReleaseGateState)
  evaluate_release_gates = gates_from 0 (i.playbook.release_gates or [])

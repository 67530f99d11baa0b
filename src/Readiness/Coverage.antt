-- ===== src/Readiness/Coverage.antt =====
-- readiness/coverage.ts: the status of each coverage lane, and the cap on readiness.
use dokion.Base.{
  String, Bool, true, false, not, ◌&&◌, List, [], ◌∷◌, ◌++◌, map, keep, flat_map, is_empty,
  includes, Option, none, some, ◌or◌, ◌==◌, ltb, ℕ, if◌then◌else◌, map_get, sorted_unique, ◌⧺◌,
}
use dokion.Model.Playbook.{
  CoverageLaneStatus, assigned, partial, ReadinessCap, CoverageLaneAssignment,
  CoverageGapAcknowledgement, CoveragePolicy, PlaybookStep, DokionPlaybook,
}
use dokion.Model.State.{ExecutionStatus, DokionState, StepState, LaneStatus, CoverageLaneState}
use dokion.Readiness.Criteria.{step_by_id, declared_steps}

pub record ManifestCoverageGap : Type 0 where
  pub lane : String
  pub status : String

-- `manifest.coverage?.gaps_requiring_user_selected_capabilities`
pub record CoverageManifest : Type 0 where
  pub gaps : Option (List ManifestCoverageGap)

pub record CoverageEvaluation : Type 0 where
  pub lanes : List CoverageLaneState
  pub blocking_unassigned_lanes : List String
  pub readiness_cap : Option ReadinessCap

-- `excludedStatuses`
abbrev pub is_excluded : ExecutionStatus → Bool
is_excluded ExecutionStatus.skipped_inapplicable = true
is_excluded ExecutionStatus.skipped_by_user = true
is_excluded ExecutionStatus.stopped_by_policy = true
is_excluded _ = false

abbrev pub status_rank : LaneStatus → ℕ
status_rank LaneStatus.assigned = 2
status_rank LaneStatus.partial = 1
status_rank LaneStatus.unassigned = 0

abbrev pub strongest_status : LaneStatus → LaneStatus → LaneStatus
strongest_status current candidate =
    if ltb (status_rank current) (status_rank candidate) then candidate else current

abbrev pub lane_status : CoverageLaneStatus → LaneStatus
lane_status assigned = LaneStatus.assigned
lane_status partial = LaneStatus.partial

abbrev pub normalize_manifest_status : String → LaneStatus
normalize_manifest_status status =
    if status == "PARTIAL" then LaneStatus.partial else LaneStatus.unassigned

abbrev empty_policy : CoveragePolicy
empty_policy = record {
  blocking_lanes = none;
  acknowledged_gaps = none;
  unassigned_lane_readiness_cap = none;
}

abbrev pub excluded_step : Option StepState → Bool
excluded_step none = false
excluded_step (some s) = is_excluded s.status

-- the assignments of a step to a lane
abbrev pub assignments_of : String → PlaybookStep → List CoverageLaneAssignment
assignments_of lane step = keep (λ a. a.lane == lane) (step.coverage_lanes or [])

abbrev pub strengthen : LaneStatus → List CoverageLaneAssignment → LaneStatus
strengthen status [] = status
strengthen status (a ∷ rest) = strengthen (strongest_status status (lane_status a.status)) rest

-- the steps that count for a lane
abbrev pub counts : DokionState → String → PlaybookStep → Bool
counts state lane step =
    not (is_empty (assignments_of lane step)) && not (excluded_step (step_by_id state step.id))

abbrev pub is_assigned : LaneStatus → Bool
is_assigned LaneStatus.assigned = true
is_assigned _ = false

-- the loop over the steps, with the status so far
abbrev pub status_after : DokionState → String → LaneStatus → List PlaybookStep → LaneStatus
status_after state lane status [] = status
status_after state lane status (step ∷ rest) =
    status_after state lane
      (if counts state lane step then strengthen status (assignments_of lane step) else status) rest

-- and the capabilities that it collects
abbrev pub capabilities_of : DokionState → String → List PlaybookStep → List String
capabilities_of state lane steps =
    map (λ s. s.capability.id) (keep (λ s. counts state lane s) steps)

pub record CoverageInput : Type 0 where
  pub manifest : CoverageManifest
  pub playbook : DokionPlaybook
  pub state : DokionState

module _ (i : CoverageInput) where
  abbrev policy : CoveragePolicy
  policy = i.playbook.coverage_policy or empty_policy

  abbrev pub blocking_lanes : List String
  blocking_lanes = policy.blocking_lanes or []

  abbrev acknowledged : List CoverageGapAcknowledgement
  acknowledged = policy.acknowledged_gaps or []

  abbrev gaps : List ManifestCoverageGap
  gaps = i.manifest.gaps or []

  -- the lanes that are acknowledged or assigned
  abbrev pub others : List String
  others =
      map (λ a. a.lane) acknowledged
      ++ flat_map (λ s. map (λ a. a.lane) (s.coverage_lanes or [])) (declared_steps i.playbook)

  abbrev pub lane_names : List String
  lane_names = map (λ g. g.lane) gaps ++ (blocking_lanes ++ others)

  abbrev pub baseline_status : String → LaneStatus
  baseline_status lane =
      map_get lane (map (λ g. (g.lane, normalize_manifest_status g.status)) gaps)
      or LaneStatus.unassigned

  abbrev acknowledged_by : String → Option String
  acknowledged_by lane = map_get lane (map (λ a. (a.lane, a.acknowledged_by)) acknowledged)

  abbrev pub lane_state : String → CoverageLaneState
  lane_state lane = record {
    lane = lane;
    status = status_after i.state lane (baseline_status lane) (declared_steps i.playbook);
    assigned_capabilities =
        sorted_unique (capabilities_of i.state lane (declared_steps i.playbook));
    blocking = includes lane blocking_lanes;
    acknowledged_by = acknowledged_by lane;
  }

  abbrev pub cap_of : List String → Option ReadinessCap
  cap_of unassigned =
      if is_empty unassigned
      then none
      else some (policy.unassigned_lane_readiness_cap or ReadinessCap.conditionally_ready)

  unfoldable pub evaluate_coverage : CoverageEvaluation
  evaluate_coverage =
      let lanes = map lane_state (sorted_unique lane_names) in
      let unassigned =
        map (λ l. l.lane) (keep (λ l. l.blocking && not (is_assigned l.status)) lanes) in
      record {
        lanes = lanes;
        blocking_unassigned_lanes = unassigned;
        readiness_cap = cap_of unassigned;
      }

pub record CoverageDeclarationInput : Type 0 where
  pub lane : String
  pub assigned_module : Option String
  pub rationale : String

pub record CoverageGapsResult : Type 0 where
  pub has_unassigned_gaps : Bool
  pub unassigned_lanes : List String
  pub readiness_score_cap : ℕ
  pub warnings : List String

-- `!decl.assignedModule`: missing or empty
abbrev is_missing : Option String → Bool
is_missing none = true
is_missing (some m) = m == ""

abbrev pub evaluate_coverage_gaps : List CoverageDeclarationInput → CoverageGapsResult
evaluate_coverage_gaps declarations =
    let open_lanes = keep (λ d. is_missing d.assigned_module) declarations in
    let has_gaps = not (is_empty open_lanes) in
    record {
      has_unassigned_gaps = has_gaps;
      unassigned_lanes = map (λ d. d.lane) open_lanes;
      readiness_score_cap = if has_gaps then 85 else 100;
      warnings = map (λ d. "Coverage gap in lane '" ⧺ d.lane ⧺ "': " ⧺ d.rationale) open_lanes;
    }

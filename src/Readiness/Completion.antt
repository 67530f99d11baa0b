-- ===== src/Readiness/Completion.antt =====
-- readiness/completion.ts: `evaluateCompletion`. Of a criterion's result, the evidence, the reason and
-- the time are left out: nothing reads them. Of a finding, the fields that are read are kept.
use dokion.Base.{
  Bool, true, false, not, ◌&&◌, ◌||◌, List, [], ◌∷◌, map, keep, every, some_of, is_empty, none,
  some, is_some, ◌or◌, ◌==◌, eqb, leb, if◌then◌else◌,
}
use dokion.Model.Playbook.{PlaybookStep}
use dokion.Readiness.Criteria.{
  CompletionCriterionId, rank, completion_criteria, CompletionCriterionStatus,
  CompletionCriterionResult, CompletionEvaluationInput, CompletionEvaluation, is_closed_finding,
  all_steps, step_by_id, gate_by_id, declared_steps, is_required, is_done, run_completed,
  verification_passed, gate_passed, approval_recorded, is_text, baseline_commit, not_tainted,
  lane_complete, was_skipped, reported, all_required_steps_succeeded,
  all_verification_commands_passed, all_release_gates_passed, no_blocking_findings_open,
  required_approvals_recorded, declared_manual_reviews_complete, results_tied_to_commit,
  capability_manifest_reported, execution_order_reported, skipped_steps_reported,
  unapplied_recommendations_reported, playbook_digest_stable, no_unacknowledged_blocking_lane,
  readiness_statement_qualified, pass, fail, fresh, stale,
}

module _ (i : CompletionEvaluationInput) where
  abbrev steps : List PlaybookStep
  steps = declared_steps i.playbook

  -- each criterion with the test that it passes, in the order of `criteria`
  abbrev pub checks : List (CompletionCriterionId × Bool)
  checks =
      (
        all_required_steps_succeeded,
        run_completed i.state.run.status
            && every (λ s. is_done (step_by_id i.state s.id)) (keep is_required steps),
      )
      ∷ (all_verification_commands_passed, every (verification_passed i.state) steps)
      ∷ (
        all_release_gates_passed,
        every (λ g. gate_passed (gate_by_id i.state g.id)) (i.playbook.release_gates or []),
      )
      ∷ (
        no_blocking_findings_open,
        is_empty (keep (λ f. f.blocks_release && not (is_closed_finding f.status)) i.findings),
      )
      ∷ (required_approvals_recorded, every (approval_recorded i.state) steps)
      ∷ (
        declared_manual_reviews_complete,
        every (λ s. is_done (step_by_id i.state s.id))
            (keep (λ s. s.capability.type == "manual") steps),
      )
      ∷ (
        results_tied_to_commit,
        is_text (baseline_commit i.state) i.current_commit
            && is_text i.state.repository_identity.commit i.current_commit,
      )
      ∷ (capability_manifest_reported, reported i.report_evidence.capability_manifest_reported true)
      ∷ (execution_order_reported, reported i.report_evidence.execution_order_reported true)
      ∷ (
        skipped_steps_reported,
        reported i.report_evidence.skipped_steps_reported
            (some_of (λ s. was_skipped (step_by_id i.state s.id)) (all_steps i.state)),
      )
      ∷ (
        unapplied_recommendations_reported,
        reported i.report_evidence.unapplied_recommendations_reported
            (not (is_empty (i.state.suggestions or []))),
      )
      ∷ (
        playbook_digest_stable,
        not_tainted i.state.run.status
            && (not (is_some i.state.playbook.tainted)
                && i.state.playbook.digest == i.current_playbook_digest),
      )
      ∷ (
        no_unacknowledged_blocking_lane,
        every lane_complete (keep (λ l. l.blocking) (i.state.coverage or [])),
      )
      ∷ (
        readiness_statement_qualified,
        reported i.report_evidence.readiness_statement_qualified true,
      )
      ∷ []

  abbrev pub is_stale : Bool
  is_stale =
      not (is_text (baseline_commit i.state) i.current_commit)
      || not (i.state.playbook.digest == i.current_playbook_digest)

abbrev pub criterion : CompletionCriterionId × Bool → CompletionCriterionResult
criterion (id, passed) = record {
  id = id;
  status = if passed then pass else fail;
  freshness = fresh;
}

abbrev pub block : CompletionCriterionResult → CompletionCriterionResult
block r = record r { status = CompletionCriterionStatus.blocked; freshness = stale }

abbrev pub is_failing : CompletionCriterionStatus → Bool
is_failing fail = true
is_failing CompletionCriterionStatus.blocked = true
is_failing _ = false

abbrev pub insert_id :
    CompletionCriterionId → List CompletionCriterionId → List CompletionCriterionId
insert_id c [] = c ∷ []
insert_id c (d ∷ ds) = if leb (rank c) (rank d) then c ∷ d ∷ ds else d ∷ insert_id c ds

abbrev pub sort_ids : List CompletionCriterionId → List CompletionCriterionId
sort_ids [] = []
sort_ids (c ∷ cs) = insert_id c (sort_ids cs)

abbrev pub criteria_of : Bool → List CompletionCriterionResult → List CompletionCriterionResult
criteria_of is_stale results = if is_stale then map block results else results

unfoldable pub evaluate_completion : CompletionEvaluationInput → CompletionEvaluation
evaluate_completion i =
    let criteria = criteria_of (is_stale i) (map criterion (checks i)) in
    let missing =
      keep (λ id. not (some_of (λ r. eqb (rank r.id) (rank id)) criteria)) completion_criteria in
    let failing = sort_ids (map (λ r. r.id) (keep (λ r. is_failing r.status) criteria)) in
    let claimed = is_empty missing && is_empty failing in
    record {
      claimed = claimed;
      final_commit = if claimed then some i.current_commit else none;
      criteria = criteria;
      missing_required = missing;
      failing_required = failing;
    }

-- ===== src/Autopilot/Selected.antt =====
-- autopilot/next-action.ts: which action is selected.
use dokion.Base.{
  ℕ, String, true, false, List, [], ◌∷◌, ◌++◌, Option, none, some, ◌≡◌, refl, ap, inl, inr,
  includes, All, arith, Bool-cases,
}
use dokion.Model.State.{DokionState}
use dokion.Autopilot.NextAction.{
  ActionStep, MinimalPlaybook, ActionSpec, StopReason, action_selected, dependencies_met,
  succeeded_ids, first_open, stop_of, select_in, select_in_steps, select_next_action,
}

-- `step` is the first of the steps that is not complete.
pub record FirstOpen (completed : List String) (steps : List ActionStep) (step : ActionStep)
    : Type 0 where
  pub before : List ActionStep
  pub after : List ActionStep
  pub split : steps ≡ before ++ step ∷ after
  pub all_complete : All (λ s. includes s.id completed ≡ true) before
  pub still_open : includes step.id completed ≡ false

first_open-selected :
    (revision n : ℕ) (completed : List String) (steps : List ActionStep) (a : ActionSpec)
    → first_open revision completed steps ≡ action_selected a n
    → (step : ActionStep) × FirstOpen completed steps step
      × (dependencies_met completed step ≡ true)
      × (a.step_id ≡ step.id)
      × (n ≡ revision)
unfolding first_open
first_open-selected revision n completed [] a h = cc
first_open-selected revision n completed (s ∷ ss) a h =
    elim (Bool-cases (includes s.id completed)) [
      | inl complete ↦
          let (step, found, met, same, at) =
            first_open-selected revision n completed ss a (rw complete at h) in
          (
            step,
            record {
              before = s ∷ found.before;
              after = found.after;
              split = ap (λ xs. s ∷ xs) found.split;
              all_complete = (complete, found.all_complete);
              still_open = found.still_open;
            },
            met,
            same,
            at,
          )
      | inr open_step ↦ (
        s,
        record { before = []; after = ss; split = refl; all_complete = tt; still_open = open_step },
        ground arith,
        ground arith,
        ground arith,
      )
    ]

-- On a run, the autopilot selects the first step of the playbook that has not succeeded, and only if
-- all that the step depends on has succeeded and the run's status lets it go on.
pub select_next_action-selected :
    (s : DokionState) (p : MinimalPlaybook) (a : ActionSpec) (n : ℕ)
    → select_next_action (some s) (some p) ≡ action_selected a n
    → (step : ActionStep) × FirstOpen (succeeded_ids s) p.steps step
      × (dependencies_met (succeeded_ids s) step ≡ true)
      × (a.step_id ≡ step.id)
      × (n ≡ s.revision)
      × (stop_of s.run.status ≡ none)
unfolding select_next_action select_in_steps
select_next_action-selected s p a n h = by_steps p.steps h
  where
    by_stop :
        (steps : List ActionStep) (o : Option StopReason)
        → select_in s.revision (succeeded_ids s) steps o ≡ action_selected a n
        → (step : ActionStep) × FirstOpen (succeeded_ids s) steps step
          × (dependencies_met (succeeded_ids s) step ≡ true)
          × (a.step_id ≡ step.id)
          × (n ≡ s.revision)
          × (o ≡ none)
    by_stop steps (some r) k = cc
    by_stop steps none k =
        let (step, found, met, same, at) =
          first_open-selected s.revision n (succeeded_ids s) steps a k in
        (step, found, met, same, at, refl)

    by_steps :
        (steps : List ActionStep)
        → select_in_steps (some s) steps ≡ action_selected a n
        → (step : ActionStep) × FirstOpen (succeeded_ids s) steps step
          × (dependencies_met (succeeded_ids s) step ≡ true)
          × (a.step_id ≡ step.id)
          × (n ≡ s.revision)
          × (stop_of s.run.status ≡ none)
    by_steps [] k = cc
    by_steps (x ∷ xs) k = by_stop (x ∷ xs) (stop_of s.run.status) k

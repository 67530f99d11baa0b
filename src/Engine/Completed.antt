-- ===== src/Engine/Completed.antt =====
-- The set of complete steps of engine/dependencies.ts, before and after a step is changed.
use dokion.Base.{
  arith, Option-cases, String, false, List, [], ◌∷◌, ◌++◌, ◌≡◌, ap, ◌∙◌, Result, ok, Bool-cases,
  Result-cases, inl, inr, ◌==◌, flat_map, find, some,
}
use dokion.Model.State.{DokionState, StageState, StepState}
use dokion.Engine.States.{
  ◌>>?◌, find_step, find_step_state, change_step, change_stage, with_stage, with_step,
}
use dokion.Engine.Guards.{is_dependency_complete, completed_in, completed_step_ids}

module _ (step_id : String) (f : StepState → StepState)
    (open_after : (x : StepState) → is_dependency_complete (f x).status ≡ false) where
  change_step-completed :
      (ss ss' : List StepState) (t : StepState)
      → find_step step_id ss ≡ ok t
      → is_dependency_complete t.status ≡ false
      → change_step step_id f ss ≡ ok ss'
      → completed_in ss' ≡ completed_in ss
  unfolding change_step
  change_step-completed [] ss' t found closed changed = cc
  change_step-completed (s ∷ ss) ss' t found closed changed = elim (Bool-cases (s.id == step_id)) [
    | inl same ↦ ground (arith, open_after s)
    | inr other ↦ elim (Result-cases (change_step step_id f ss)) [
      | inr (e, thrown) ↦ ground arith
      | inl (later, changed') ↦
          let ih = change_step-completed ss later t (rw other at found) closed changed' in
          ground (arith, ih)
    ]
  ]

  -- the stage whose step is changed
  abbrev in_stage : StageState → Result StageState
  in_stage stage =
      change_step step_id f stage.steps >>? λ steps. ok (record stage { steps = steps })

  in_stage-completed :
      (s s' : StageState) (t : StepState)
      → find_step step_id s.steps ≡ ok t
      → is_dependency_complete t.status ≡ false
      → in_stage s ≡ ok s'
      → completed_in s'.steps ≡ completed_in s.steps
  in_stage-completed s s' t found closed changed =
      elim (Result-cases (change_step step_id f s.steps)) [
        | inr (e, thrown) ↦ absurd (ground arith)
        | inl (steps, changed') ↦
            let same = change_step-completed s.steps steps t found closed changed' in
            ground (arith, same)
      ]

  change_stage-completed :
      (stage_id : String) (ss ss' : List StageState) (s : StageState) (t : StepState)
      → find (λ x. x.id == stage_id) ss ≡ some s
      → find_step step_id s.steps ≡ ok t
      → is_dependency_complete t.status ≡ false
      → change_stage stage_id in_stage ss ≡ ok ss'
      → flat_map (λ stage. completed_in stage.steps) ss'
        ≡ flat_map (λ stage. completed_in stage.steps) ss
  unfolding change_stage
  change_stage-completed stage_id [] ss' s t at found closed changed = cc
  change_stage-completed stage_id (x ∷ xs) ss' s t at found closed changed =
      elim (Bool-cases (x.id == stage_id)) [
        | inl same ↦ elim (Result-cases (in_stage x)) [
          | inr (e, thrown) ↦ absurd (ground arith)
          | inl (x', changed') ↦
              let here : x ≡ s = ground arith in
              let kept =
                in_stage-completed x x' t (ap (λ y. find_step step_id y.steps) here ∙ found) closed
                  changed' in
              let shape : ss' ≡ x' ∷ xs = ground arith in
              ap (flat_map (λ stage. completed_in stage.steps)) shape
              ∙ ap (λ ys. ys ++ flat_map (λ stage. completed_in stage.steps) xs) kept
        ]
        | inr other ↦ elim (Result-cases (change_stage stage_id in_stage xs)) [
          | inr (e, thrown) ↦ absurd (ground arith)
          | inl (later, changed') ↦
              let ih =
                change_stage-completed stage_id xs later s t (rw other at at) found closed
                  changed' in
              let shape : ss' ≡ x ∷ later = ground arith in
              ap (flat_map (λ stage. completed_in stage.steps)) shape
              ∙ ap (λ ys. completed_in x.steps ++ ys) ih
        ]
      ]

  -- the steps that count as complete after a step that was not is changed into one that is not
  pub with_step-completed :
      (stage_id : String) (s p : DokionState) (t : StepState)
      → find_step_state s stage_id step_id ≡ ok t
      → is_dependency_complete t.status ≡ false
      → with_step stage_id step_id f s ≡ ok p
      → (completed_step_ids p ≡ completed_step_ids s) × (p.playbook ≡ s.playbook)
  unfolding find_step_state with_step with_stage completed_step_ids
  with_step-completed stage_id s p t found closed changed =
      elim (Option-cases (find (λ x. x.id == stage_id) s.stages)) [
        | inl missing ↦ absurd (ground arith)
        | inr (stage, at) ↦ elim (Result-cases (change_stage stage_id in_stage s.stages)) [
          | inr (e, thrown) ↦ absurd (ground arith)
          | inl (stages, changed') ↦
              let shape : p ≡ record s { stages = stages } = ground arith in
              let found' : find_step step_id stage.steps ≡ ok t = ground arith in
              (
                ap completed_step_ids shape
                    ∙ change_stage-completed stage_id s.stages stages stage t at found' closed
                        changed',
                ap (λ q. q.playbook) shape,
              )
        ]
      ]

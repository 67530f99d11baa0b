-- ===== src/Engine/States.antt =====
-- `findStageState` and `findStepState` of engine/runtime-engine.ts: reading a stage or a step of the
-- state, and changing it in place. Both take the first of that identifier and throw without one.
use dokion.Base.{
  String, List, [], ◌∷◌, Option, none, some, Result, ok, err, Fault, plain_error, ◌==◌,
  if◌then◌else◌, find,
}
use dokion.Model.State.{DokionState, StageState, StepState}

infixl 10 ◌>>?◌
abbrev pub ◌>>?◌ {ℓ κ} : {A : Type ℓ} {B : Type κ} → Result A → (A → Result B) → Result B
ok a >>? f = f a
err e >>? f = err e

abbrev pub missing_stage : Fault
missing_stage = plain_error "State is missing declared stage"

abbrev pub missing_step : Fault
missing_step = plain_error "State is missing declared step"

abbrev pub or_missing {ℓ} : {A : Type ℓ} → Fault → Option A → Result A
or_missing e none = err e
or_missing e (some a) = ok a

unfoldable pub find_stage_state : DokionState → String → Result StageState
find_stage_state state stage_id =
    or_missing missing_stage (find (λ s. s.id == stage_id) state.stages)

abbrev pub find_step : String → List StepState → Result StepState
find_step step_id steps = or_missing missing_step (find (λ s. s.id == step_id) steps)

unfoldable pub find_step_state : DokionState → String → String → Result StepState
unfolding find_stage_state
find_step_state state stage_id step_id =
    find_stage_state state stage_id >>? λ stage. find_step step_id stage.steps

-- `const target = findStageState(…); target.… = …` on a list of stages
unfoldable pub change_stage :
    String → (StageState → Result StageState) → List StageState → Result (List StageState)
change_stage stage_id f [] = err missing_stage
change_stage stage_id f (s ∷ ss) =
    let later = change_stage stage_id f ss in
    if s.id == stage_id then (f s >>? λ s'. ok (s' ∷ ss)) else (later >>? λ ss'. ok (s ∷ ss'))

unfoldable pub change_step :
    String → (StepState → StepState) → List StepState → Result (List StepState)
change_step step_id f [] = err missing_step
change_step step_id f (s ∷ ss) =
    let later = change_step step_id f ss in
    if s.id == step_id then ok (f s ∷ ss) else (later >>? λ ss'. ok (s ∷ ss'))

-- a mutator that changes one stage
unfoldable pub with_stage :
    String → (StageState → Result StageState) → DokionState → Result DokionState
with_stage stage_id f state =
    change_stage stage_id f state.stages >>? λ stages. ok (record state { stages = stages })

-- a mutator that changes one step
unfoldable pub with_step :
    String → String → (StepState → StepState) → DokionState → Result DokionState
with_step stage_id step_id f =
    with_stage stage_id
      (λ stage. change_step step_id f stage.steps >>? λ steps. ok (record stage { steps = steps }))

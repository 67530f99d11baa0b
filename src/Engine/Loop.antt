-- ===== src/Engine/Loop.antt =====
-- `execute`, `run` and `resume` of engine/runtime-engine.ts.
use dokion.Base.{
  ℕ, String, Bool, true, false, not, List, [], ◌∷◌, map, Option, none, some, ok, ◌==◌, ◌or◌,
  ◌or_try◌, is_empty, if◌then◌else◌, Exec, pure, lift, gets, ◌>>=◌, ◌>>◌,
}
use dokion.Applicability.{detect_platform, platform_name, evaluate_applicability}
use dokion.Events.{run_started, run_resumed, run_completed}
use dokion.Model.Json.{Json, end, field, obj}
use dokion.Model.Playbook.{other, PlaybookStep, PlaybookStage, LoadedPlaybook}
use dokion.Model.State.{RunStatus, DokionState, RepositoryIdentity}
use dokion.World.{
  Host, World, ask, now, StateInitialization, StageDeclaration, load, initialize, update_state,
  write_hardening_report, append,
}
use dokion.Engine.Guards.{assert_stage_dependencies, assert_sequential_execution}
use dokion.Engine.States.{find_stage_state}
use dokion.Engine.Marks.{enter_stage, close_stage, complete_run, resume_run}
use dokion.World.{GitContext, StepDeclaration}
use dokion.Engine.Events.{
  InapplicableOutcome, event_input, text_field, mark_tainted, mark_stale, mark_stage_inapplicable,
  load_active_playbook,
}
use dokion.Engine.Step.{
  StepOutcome, next_step, next_stage, return, is_closed_stage, succeeded_status, run_step,
}
use dokion.Engine.Identity.{commit_or_zero, non_empty, compare_repository_identities}

abbrev pub declare_step : PlaybookStep → StepDeclaration
declare_step s = record { id = s.id; mode = s.mode }

abbrev pub declare_stage : PlaybookStage → StageDeclaration
declare_stage s = record { id = s.id; steps = map declare_step s.steps }

-- "COMPLETED", "TAINTED", "STALE": such a run is not resumed
abbrev pub is_over : RunStatus → Bool
is_over RunStatus.completed = true
is_over RunStatus.tainted = true
is_over RunStatus.stale = true
is_over _ = false

-- the loops go on with `rest`, unless the stage or the run is over
abbrev pub after_step : StepOutcome → Exec World StepOutcome → Exec World StepOutcome
after_step next_step rest = rest
after_step next_stage rest = pure next_stage
after_step (return state) rest = pure (return state)

abbrev pub after_stage : StepOutcome → Exec World DokionState → Exec World DokionState
after_stage (return state) rest = pure state
after_stage next_step rest = rest
after_stage next_stage rest = rest

module _ (h : Host) where
  module _ (loaded : LoadedPlaybook) where
    -- the loop over the steps of a stage; `next_step` means that it ended with the last step
    unfoldable pub run_steps : PlaybookStage → List PlaybookStep → Exec World StepOutcome
    run_steps stage [] = pure next_step
    run_steps stage (step ∷ steps) = do
      done ← run_step h loaded stage step
      after_step done (run_steps stage steps)

    -- what follows the loop over the steps
    unfoldable pub after_steps : PlaybookStage → StepOutcome → Exec World StepOutcome
    after_steps stage (return state) = pure (return state)
    after_steps stage next_stage = pure next_stage
    after_steps stage next_step = do
      at ← now
      state ← update_state h (close_stage stage.id at)
      closed ← lift (find_stage_state state stage.id)
      if succeeded_status closed.status then pure next_stage else pure (return state)

    unfoldable pub run_applicable_stage : PlaybookStage → Exec World StepOutcome
    unfolding run_steps after_steps
    run_applicable_stage stage = do
      at ← now
      update_state h (enter_stage stage.id at)
      done ← run_steps stage stage.steps
      after_steps stage done

    abbrev pub after_stage_inapplicable : InapplicableOutcome → Exec World StepOutcome
    after_stage_inapplicable InapplicableOutcome.stop_run = do state ← load h; pure (return state)
    after_stage_inapplicable InapplicableOutcome.stop_stage = pure next_stage
    after_stage_inapplicable InapplicableOutcome.continue = pure next_stage

    -- the body of the loop over the stages
    unfoldable pub run_stage : PlaybookStage → Exec World StepOutcome
    unfolding run_applicable_stage
    run_stage stage = do
      state ← load h
      existing ← lift (find_stage_state state stage.id)
      if is_closed_stage existing.status then pure next_stage else do
        lift (assert_stage_dependencies stage state)
        result ←
            evaluate_applicability h (state.run.agent or other) (state.profile or [])
              stage.applicability
        if not result.applicable
            then (do
              marked ← mark_stage_inapplicable h stage result.reason
              after_stage_inapplicable marked)
            else run_applicable_stage stage

    unfoldable pub complete : Exec World DokionState
    complete = do
      at ← now
      completed ← update_state h (complete_run at)
      append h (event_input at completed.run.id run_completed end)
      pure completed

    unfoldable pub run_stages : List PlaybookStage → Exec World DokionState
    unfolding run_stage complete
    run_stages [] = complete
    run_stages (stage ∷ stages) = do done ← run_stage stage; after_stage done (run_stages stages)

    unfoldable pub execute : Exec World DokionState
    unfolding run_stages
    execute = run_stages loaded.playbook.stages

  unfoldable pub inspect_git : Exec World GitContext
  inspect_git = do
    head ← ask (λ t. ok (h.git t ("rev-parse" ∷ "HEAD" ∷ [])))
    branch ← ask (λ t. ok (h.git t ("branch" ∷ "--show-current" ∷ [])))
    pure (record { commit_sha = commit_or_zero head; branch = non_empty branch })

  abbrev pub initialization :
      String
      → LoadedPlaybook
      → Bool
      → GitContext
      → List (String × Json)
      → RepositoryIdentity
      → StateInitialization
  initialization run_id loaded dirty git profile identity = record {
    run_id = run_id;
    playbook_digest = loaded.digest;
    repository_identity = identity;
    commit_sha = some (identity.commit or git.commit_sha);
    branch = non_empty (identity.branch or_try git.branch);
    worktree_clean = some (not dirty);
    agent = detect_platform (h.env "DOKION_AGENT");
    platform = none;
    profile = profile;
    stages = map declare_stage loaded.playbook.stages;
  }

  -- `(await this.store.exists()) ? (await this.store.load()).revision : undefined`
  abbrev pub current_revision : Option DokionState → Exec World (Option ℕ)
  current_revision none = pure none
  current_revision (some _) = do state ← load h; pure (some state.revision)

  unfoldable pub start_run : String → Exec World DokionState
  unfolding inspect_git
  start_run run_id = do
    loaded ← load_active_playbook h
    lift (assert_sequential_execution loaded.playbook)
    dirty ← ask (λ t. h.enforce_worktree_policy t loaded.playbook)
    git ← inspect_git
    profile ← ask (λ t. ok (h.inspect_project t))
    identity ← ask (λ t. ok (h.capture_repository_identity t loaded.digest))
    stored ← gets (λ w. w.stored)
    expected_revision ← current_revision stored
    state ← initialize h (initialization run_id loaded dirty git profile identity) expected_revision
    at ← now
    append h (
        event_input at state.run.id run_started (
          text_field "playbook_digest" loaded.digest (
            field "platform"
              (obj (
                text_field "detected" (platform_name (detect_platform (h.env "DOKION_AGENT"))) end))
              end)))
    write_hardening_report h state
    execute loaded

  unfoldable pub run : Exec World DokionState
  unfolding start_run
  run = do run_id ← ask (λ t. ok (h.new_run_id t)); start_run run_id

  -- the rest of `continueRun`, for a run that is not over and has the same digest
  unfoldable pub resume_with : LoadedPlaybook → DokionState → Exec World DokionState
  resume_with loaded state = do
    identity ← ask (λ t. ok (h.capture_repository_identity t loaded.digest))
    let differences = compare_repository_identities state.repository_identity identity
    if not (is_empty differences) then mark_stale h state differences else do
      resumed ← update_state h resume_run
      at ← now
      append h (event_input at resumed.run.id run_resumed end)
      execute loaded

  unfoldable pub continue_loaded : LoadedPlaybook → Exec World DokionState
  unfolding resume_with
  continue_loaded loaded = do
    lift (assert_sequential_execution loaded.playbook)
    state ← load h
    if is_over state.run.status
        then pure state
        else if not (state.playbook.digest == loaded.digest)
        then mark_tainted h state loaded.digest "resume"
        else resume_with loaded state

  abbrev pub continue_stored : String → Option DokionState → Exec World DokionState
  continue_stored fallback_run_id none = start_run fallback_run_id
  continue_stored fallback_run_id (some _) = do
    loaded ← load_active_playbook h
    continue_loaded loaded

  unfoldable pub continue_run : String → Exec World DokionState
  unfolding continue_loaded
  continue_run fallback_run_id = do
    stored ← gets (λ w. w.stored)
    continue_stored fallback_run_id stored

  unfoldable pub resume : Exec World DokionState
  unfolding continue_run
  resume = do run_id ← ask (λ t. ok (h.new_run_id t)); continue_run run_id

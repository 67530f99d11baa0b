-- ===== src/Engine/Events.antt =====
-- The engine's state changes with the events that report them (`markTainted`, `markStale`,
-- `markStageInapplicable`, `markStepInapplicable`, `awaitApproval`, `failStep` of
-- engine/runtime-engine.ts), and playbook/load-playbook.ts.
use dokion.Base.{
  String, not, List, [], ◌∷◌, Option, none, some, Result, ok, err, ErrorCode, dokion_error,
  playbook_tainted, plain_error, ◌==◌, ◌or◌, if◌then◌else◌, Exec, pure, throw, ◌>>=◌, ◌>>◌,
}
use dokion.Events.{DokionEventInput, DokionEventType, DokionEventActor}
use dokion.Model.Json.{Fields, end, field, str, arr, Items, nil, cons}
use dokion.Model.Playbook.{
  FailurePolicy, InapplicablePolicy, Applicability, PlaybookStep, PlaybookStage, LoadedPlaybook,
}
use dokion.Model.State.{Time, DokionState, RepositoryIdentityDifference, RepositoryIdentityField}
use dokion.World.{Host, World, ask, now, update_state, append}
use dokion.Engine.Marks.{
  Partial, failure_policy, stage_inapplicable, step_inapplicable, await_step, fail_step_state,
  stale_state, tainted_state,
}

pub data InapplicableOutcome : Type 0 where
  continue stop_stage stop_run : InapplicableOutcome

abbrev pub runtime_event_actor : DokionEventActor
runtime_event_actor = record { type = "runtime"; id = "dokion-runtime" }

abbrev pub event_input : Time → String → DokionEventType → Fields → DokionEventInput
event_input at run_id event payload = record {
  at = at;
  run_id = run_id;
  actor = runtime_event_actor;
  event = event;
  payload = payload;
}

abbrev pub text_field : String → String → Fields → Fields
text_field k v = field k (str v)

abbrev pub step_payload : String → String → Fields → Fields
step_payload stage_id step_id rest =
    text_field "stage_id" stage_id (text_field "step_id" step_id rest)

abbrev pub outcome : InapplicablePolicy → InapplicableOutcome
outcome InapplicablePolicy.mark_blocked = InapplicableOutcome.stop_run
outcome InapplicablePolicy.stop_stage = InapplicableOutcome.stop_stage
outcome InapplicablePolicy.skip = InapplicableOutcome.continue

abbrev pub policy_name : InapplicablePolicy → String
policy_name InapplicablePolicy.mark_blocked = "MARK_BLOCKED"
policy_name InapplicablePolicy.stop_stage = "STOP_STAGE"
policy_name InapplicablePolicy.skip = "SKIP"

abbrev pub failure_policy_name : FailurePolicy → String
failure_policy_name FailurePolicy.stop_pipeline = "STOP_PIPELINE"
failure_policy_name FailurePolicy.stop_stage = "STOP_STAGE"
failure_policy_name FailurePolicy.continue = "CONTINUE"
failure_policy_name FailurePolicy.request_user_decision = "REQUEST_USER_DECISION"
failure_policy_name FailurePolicy.mark_blocked = "MARK_BLOCKED"

abbrev pub on_inapplicable : Option Applicability → InapplicablePolicy
on_inapplicable a = (elim a [ none ↦ none | some c ↦ c.on_inapplicable ]) or InapplicablePolicy.skip

module _ (h : Host) where
  unfoldable pub read_playbook : Exec World String
  read_playbook =
      ask (λ t. elim (h.playbook_text t) [ none ↦ err (plain_error "ENOENT") | some raw ↦ ok raw ])

  abbrev parse_active : String → Result LoadedPlaybook
  parse_active raw = elim (h.parse_playbook raw) [
    | none ↦ err (dokion_error ErrorCode.invalid_json)
    | some playbook ↦
        if not (h.valid_playbook playbook)
        then err (dokion_error ErrorCode.invalid_playbook)
        else if h.text_includes raw "sha256:PLACEHOLDER"
        then err (dokion_error ErrorCode.unpinned_capability)
        else ok (record { digest = h.codec.sha256 raw; playbook = playbook })
  ]

  unfoldable pub load_active_playbook : Exec World LoadedPlaybook
  load_active_playbook = ask (λ t. elim (h.playbook_text t) [
    | none ↦ err (dokion_error ErrorCode.no_active_playbook)
    | some raw ↦ parse_active raw
  ])

  unfoldable pub assert_playbook_unchanged : LoadedPlaybook → Exec World Unit
  unfolding read_playbook
  assert_playbook_unchanged loaded = do
    raw ← read_playbook
    let observed = h.codec.sha256 raw
    if observed == loaded.digest then pure tt else throw (playbook_tainted observed)

  unfoldable pub mark_tainted : DokionState → String → String → Exec World DokionState
  mark_tainted state observed before_step = do
    at ← now
    tainted ← update_state h (tainted_state observed before_step at)
    append h (
        event_input at state.run.id DokionEventType.playbook_tainted (
          text_field "before_step" before_step
            (text_field "expected" state.playbook.digest (text_field "observed" observed end))))
    pure tainted

  abbrev pub field_name : RepositoryIdentityField → String
  field_name RepositoryIdentityField.canonical_root = "canonical_root"
  field_name RepositoryIdentityField.root_digest = "root_digest"
  field_name RepositoryIdentityField.worktree_id = "worktree_id"
  field_name RepositoryIdentityField.remote = "remote"
  field_name RepositoryIdentityField.commit = "commit"
  field_name RepositoryIdentityField.branch = "branch"
  field_name RepositoryIdentityField.playbook_digest = "playbook_digest"

  abbrev field_names : List RepositoryIdentityDifference → Items
  field_names [] = nil
  field_names (d ∷ ds) = cons (str (field_name d.field)) (field_names ds)

  unfoldable pub mark_stale :
      DokionState → List RepositoryIdentityDifference → Exec World DokionState
  mark_stale state differences = do
    at ← now
    stale ← update_state h (stale_state differences at)
    append h (
        event_input at state.run.id DokionEventType.run_stale (
          text_field "reason" "REPOSITORY_IDENTITY_CHANGED"
            (field "changed_fields" (arr (field_names differences)) end)))
    pure stale

  unfoldable pub mark_stage_inapplicable : PlaybookStage → String → Exec World InapplicableOutcome
  mark_stage_inapplicable stage reason = do
    let policy = on_inapplicable stage.applicability
    at ← now
    state ← update_state h (stage_inapplicable stage.id policy reason at)
    append h (
        event_input at state.run.id DokionEventType.stage_inapplicable (
          text_field "stage_id" stage.id
            (text_field "policy" (policy_name policy) (text_field "reason" reason end))))
    pure (outcome policy)

  unfoldable pub mark_step_inapplicable :
      PlaybookStage → PlaybookStep → String → Exec World InapplicableOutcome
  mark_step_inapplicable stage step reason = do
    let policy = on_inapplicable step.applicability
    at ← now
    state ← update_state h (step_inapplicable stage.id step.id policy reason at)
    append h (
        event_input at state.run.id DokionEventType.step_inapplicable (
          step_payload stage.id step.id
            (text_field "policy" (policy_name policy) (text_field "reason" reason end))))
    pure (outcome policy)

  unfoldable pub await_approval :
      PlaybookStage → PlaybookStep → LoadedPlaybook → String → Partial → Exec World DokionState
  await_approval stage step loaded subject p = do
    state ← update_state h (await_step stage.id step loaded subject p)
    at ← now
    append h (
        event_input at state.run.id DokionEventType.approval_required
          (step_payload stage.id step.id (text_field "subject" subject end)))
    pure state

  unfoldable pub fail_step :
      PlaybookStage → PlaybookStep → LoadedPlaybook → String → Partial → Exec World DokionState
  fail_step stage step loaded reason p = do
    let policy = failure_policy step loaded
    at ← now
    state ← update_state h (fail_step_state stage.id step.id policy reason p at)
    append h (
        event_input at state.run.id DokionEventType.step_failed (
          step_payload stage.id step.id (
            text_field "reason" reason
              (text_field "failure_policy" (failure_policy_name policy) end))))
    pure state

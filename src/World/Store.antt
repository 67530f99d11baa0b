-- ===== src/World/Store.antt =====
-- state/state-store.ts: `StateStore`, and `updateState` of engine/runtime-engine.ts. One process
-- acts on the store; the transition lock that keeps others out is in Locks.Waiting.
use dokion.Base.{
  ℕ, ◌+◌, String, Bool, List, [], map, Option, none, some, Result, ok, err, ErrorCode, dokion_error,
  eqb, is_some, ◌||◌, if◌then◌else◌, Exec, pure, lift, gets, ◌>>=◌, ◌>>◌,
}
use dokion.Model.Json.{Json}
use dokion.Model.Playbook.{ExecutionMode, DokionPlatform}
use dokion.Model.State.{
  Time, RunStatus, ExecutionStatus, DokionState, StageState, StepState, RepositoryIdentity,
  Baseline,
}
use dokion.Events.{DokionEvent, DokionEventInput, append_event}
use dokion.World.Platform.{truthy, detect_agent_platform}
use dokion.World.Interface.{Host, World, now}

-- `stages` of `StateInitialization`: the identifiers and modes that the playbook declares
pub record StepDeclaration : Type 0 where
  pub id : String
  pub mode : ExecutionMode

pub record StageDeclaration : Type 0 where
  pub id : String
  pub steps : List StepDeclaration

pub record StateInitialization : Type 0 where
  pub run_id : String
  pub playbook_digest : String
  pub repository_identity : RepositoryIdentity
  pub commit_sha : Option String
  pub branch : Option String
  pub worktree_clean : Option Bool
  -- `initialize` does not read it
  pub agent : DokionPlatform
  -- the agent of the platform's profile
  pub platform : Option DokionPlatform
  pub profile : List (String × Json)
  pub stages : List StageDeclaration

abbrev pub initial_step : StepDeclaration → StepState
initial_step d = record {
  id = d.id;
  status = ExecutionStatus.pending;
  mode = some d.mode;
  attempts = some 0;
  started_at = none;
  ended_at = none;
  approval = none;
  findings = none;
  verification_results = some [];
  success_conditions_met = none;
  success_conditions_unmet = none;
  evidence = some [];
  failure_reason = none;
  applied_failure_policy = none;
  skip_reason = none;
}

abbrev pub initial_stage : StageDeclaration → StageState
initial_stage d = record {
  id = d.id;
  status = ExecutionStatus.pending;
  started_at = none;
  ended_at = none;
  reason = none;
  steps = map initial_step d.steps;
}

abbrev if_truthy : Option String → Option String
if_truthy value = if truthy value then value else none

abbrev pub initial_baseline : StateInitialization → Time → Option Baseline
initial_baseline i at =
    if truthy i.commit_sha || truthy i.branch || is_some i.worktree_clean
    then some (record {
      commit = if_truthy i.commit_sha;
      branch = if_truthy i.branch;
      worktree_clean = i.worktree_clean;
      captured_at = at;
    })
    else none

abbrev pub next_revision : Option DokionState → ℕ
next_revision none = 0
next_revision (some s) = s.revision + 1

-- the state that `initialize` writes
abbrev pub initial_state :
    StateInitialization → DokionPlatform → Option DokionState → Time → DokionState
initial_state i agent current at = record {
  revision = next_revision current;
  run = record {
    id = i.run_id;
    started_at = at;
    ended_at = none;
    status = RunStatus.running;
    agent = some agent;
    stale = none;
  };
  repository_identity = i.repository_identity;
  playbook = record {
    digest = i.playbook_digest;
    verified_at = at;
    last_verified_before_step = none;
    tainted = none;
  };
  baseline = initial_baseline i at;
  profile = some i.profile;
  stages = map initial_stage i.stages;
  approvals = some [];
  release_gates = some [];
  suggestions = some [];
  coverage = none;
}

abbrev pub check_revision : Option ℕ → Option ℕ → Result (Unit {0})
check_revision none none = ok tt
check_revision (some e) (some a) =
    if eqb e a then ok tt else err (dokion_error ErrorCode.state_revision_conflict)
check_revision _ _ = err (dokion_error ErrorCode.state_revision_conflict)

abbrev pub revision_of : Option DokionState → Option ℕ
revision_of none = none
revision_of (some s) = some s.revision

module _ (h : Host) where
  abbrev pub validated : DokionState → Result DokionState
  validated s = if h.valid_state s then ok s else err (dokion_error ErrorCode.invalid_state)

  abbrev pub read_state : Option DokionState → Result DokionState
  read_state none = err (dokion_error ErrorCode.state_not_found)
  read_state (some s) = validated s

  unfoldable pub load : Exec World DokionState
  load w = (read_state w.stored, w)

  abbrev load_if_exists : Option DokionState → Result (Option DokionState)
  load_if_exists none = ok none
  load_if_exists (some s) = elim (validated s) [ ok t ↦ ok (some t) | err e ↦ err e ]

  unfoldable pub write_validated : DokionState → Exec World Unit
  write_validated s w =
      if h.valid_state s
      then (ok tt, record w { stored = some s })
      else (err (dokion_error ErrorCode.invalid_state), w)

  -- `input.platform ?? detectAgentPlatform()`
  abbrev platform_agent : Option DokionPlatform → Result DokionPlatform
  platform_agent (some agent) = ok agent
  platform_agent none = detect_agent_platform h.env

  unfoldable pub initialize : StateInitialization → Option ℕ → Exec World DokionState
  initialize i expected_revision = do
    stored ← gets (λ w. w.stored)
    current ← lift (load_if_exists stored)
    lift (check_revision expected_revision (revision_of current))
    at ← now
    agent ← lift (platform_agent i.platform)
    let state = initial_state i agent current at
    write_validated state
    pure state

  -- `update`: the mutator works on a copy, so that nothing is written if it throws
  unfoldable pub update : ℕ → (DokionState → Result DokionState) → Exec World DokionState
  update expected_revision mutator = do
    current ← load
    lift (check_revision (some expected_revision) (some current.revision))
    proposed ← lift (mutator current)
    let next = record proposed { revision = current.revision + 1 }
    write_validated next
    pure next

  unfoldable pub write_hardening_report : DokionState → Exec World Unit
  write_hardening_report s w = (ok tt, record w { report = some s })

  unfoldable pub update_state : (DokionState → Result DokionState) → Exec World DokionState
  update_state mutator = do
    current ← load
    state ← update current.revision mutator
    write_hardening_report state
    pure state

  unfoldable pub append : DokionEventInput → Exec World DokionEvent
  append i w =
      let (r, log) = append_event h.codec h.valid_event i w.clock w.log in
      (r, record w { log = log; clock = w.clock + 1 })

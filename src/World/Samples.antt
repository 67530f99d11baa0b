-- ===== src/World/Samples.antt =====
-- A small host, a playbook of one stage, and a run of it, for the tests.
use dokion.Base.{String, true, false, List, [], ◌∷◌, Option, none, some, ok}
use dokion.Model.Playbook.{
  analyze, ApprovalPolicy, sequential, PlaybookStep, PlaybookStage, DokionPlaybook, LoadedPlaybook,
}
use dokion.Model.State.{RunStatus, ExecutionStatus, DokionState, RepositoryIdentity}
use dokion.Events.{missing}
use dokion.Events.Samples.{plain_codec, any_event}
use dokion.World.Interface.{Host, World, succeeded}
use dokion.World.Store.{initial_step}

abbrev step : String → Option (List String) → PlaybookStep
step id depends_on = record {
  id = id;
  capability = record { type = "skill"; id = id };
  mode = analyze;
  required = none;
  depends_on = depends_on;
  applicability = none;
  coverage_lanes = none;
  approval = some ApprovalPolicy.from_playbook;
  verification = none;
  success_conditions = none;
  failure_policy = none;
}

abbrev stage : PlaybookStage
stage = record {
  id = "audit";
  execution = sequential;
  depends_on = none;
  applicability = none;
  steps = step "scan" none ∷ step "report" (some ("scan" ∷ [])) ∷ [];
}

abbrev playbook : DokionPlaybook
playbook = record {
  defaults = none;
  stages = stage ∷ [];
  release_gates = none;
  coverage_policy = none;
}

abbrev pub loaded : LoadedPlaybook
loaded = record { digest = "p"; playbook = playbook }

abbrev identity : String → RepositoryIdentity
identity digest = record {
  canonical_root = "/r";
  root_digest = "d";
  worktree_id = "w";
  remote = none;
  commit = none;
  branch = none;
  playbook_digest = digest;
}

abbrev pub host : Host
host = record {
  codec = plain_codec;
  valid_state = λ s. true;
  valid_event = any_event;
  valid_playbook = λ p. true;
  playbook_text = λ t. some "p";
  parse_playbook = λ text. some playbook;
  text_includes = λ a b. false;
  git = λ t args. none;
  enforce_worktree_policy = λ t p. ok false;
  inspect_project = λ t. [];
  capture_repository_identity = λ t digest. identity digest;
  env = λ _. none;
  new_run_id = λ t. "run";
  path_exists = λ t p. ok true;
  glob_matches = λ t p. ok true;
  run_capability = λ t mode stage step state. ok (record {
    status = succeeded;
    finding_ids = [];
    evidence = "e" ∷ [];
    verification_results = [];
  });
  execute_step_verification = λ t stage step n.
      ok (record { passed = true; reason = none; evidence = []; verification_results = [] });
  message = λ e. "fault";
}

abbrev pub run_state : RunStatus → DokionState
run_state status = record {
  revision = 4;
  run = record {
    id = "run";
    started_at = 0;
    ended_at = none;
    status = status;
    agent = none;
    stale = none;
  };
  repository_identity = identity "p";
  playbook = record {
    digest = "p";
    verified_at = 0;
    last_verified_before_step = none;
    tainted = none;
  };
  baseline = none;
  profile = none;
  stages =
      record {
        id = "audit";
        status = ExecutionStatus.pending;
        started_at = none;
        ended_at = none;
        reason = none;
        steps =
            initial_step (record { id = "scan"; mode = analyze })
            ∷ initial_step (record { id = "report"; mode = analyze })
            ∷ [];
      }
      ∷ [];
  approvals = none;
  release_gates = none;
  suggestions = none;
  coverage = none;
}

-- a world with the run of the given status, and an empty journal
abbrev pub world : RunStatus → World
world status = record {
  stored = some (run_state status);
  log = record { journal = []; head_file = missing };
  report = none;
  clock = 0;
  invoked = [];
}

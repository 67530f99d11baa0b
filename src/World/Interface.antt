-- ===== src/World/Interface.antt =====
-- The host: what the operating system, git, Bun and the capabilities' own programs answer. Each
-- answer may depend on the time of the call, which the world counts.
use dokion.Base.{
  ℕ, ◌+◌, String, Bool, List, ◌∷◌, Option, Result, ok, Exec, pure, lift, gets, ◌>>=◌, ◌>>◌,
}
use dokion.Model.Json.{Json}
use dokion.Model.Playbook.{ExecutionMode, PlaybookStep, PlaybookStage, DokionPlaybook}
use dokion.Model.State.{Time, DokionState, RepositoryIdentity, VerificationResult}
use dokion.Events.{Codec, DokionEvent, EventLog}

-- engine/capability-runner.ts
pub data CapabilityStatus : Type 0 where
  succeeded : CapabilityStatus
  awaiting_approval : (subject : String) → CapabilityStatus
  failed : (reason : String) → CapabilityStatus

pub record CapabilityRunResult : Type 0 where
  pub status : CapabilityStatus
  pub finding_ids : List String
  pub evidence : List String
  pub verification_results : List VerificationResult

-- verification/step-verification.ts
pub record StepVerificationBatch : Type 0 where
  pub passed : Bool
  pub reason : Option String
  pub evidence : List String
  pub verification_results : List VerificationResult

pub record GitContext : Type 0 where
  pub commit_sha : String
  pub branch : Option String

pub record Host : Type 0 where
  pub codec : Codec
  -- JSON schemas, applied by contracts/schema-validator.ts
  pub valid_state : DokionState → Bool
  pub valid_event : DokionEvent → Bool
  pub valid_playbook : DokionPlaybook → Bool
  -- the text of .dokion/playbook.json, `JSON.parse` of it, and `String.prototype.includes`
  pub playbook_text : Time → Option String
  pub parse_playbook : String → Option DokionPlaybook
  pub text_includes : String → String → Bool
  -- git, the worktree policy, the project inspection
  pub git : Time → List String → Option String
  pub enforce_worktree_policy : Time → DokionPlaybook → Result Bool
  pub inspect_project : Time → List (String × Json)
  pub capture_repository_identity : Time → String → RepositoryIdentity
  -- the environment's variables
  pub env : String → Option String
  pub new_run_id : Time → String
  -- `stat` below the project's root, and a scan by `Bun.Glob`
  pub path_exists : Time → String → Result Bool
  pub glob_matches : Time → String → Result Bool
  -- what the capabilities' programs do
  pub run_capability :
      Time → ExecutionMode → PlaybookStage → PlaybookStep → DokionState → Result CapabilityRunResult
  pub execute_step_verification :
      Time → PlaybookStage → PlaybookStep → (attempt : ℕ) → Result StepVerificationBatch
  -- `error.message`, or the text of a thrown value
  pub message : dokion.Base.Fault → String

-- A capability or verification that was started, with the state that it was given.
pub record Invocation : Type 0 where
  pub stage : PlaybookStage
  pub step : PlaybookStep
  pub given : DokionState

pub record World : Type 0 where
  -- .dokion/state.json
  pub stored : Option DokionState
  -- .dokion/events.ndjson and .dokion/events.head.json
  pub log : EventLog
  -- the state that HARDENING.md was last rendered from
  pub report : Option DokionState
  -- calls of the host so far: the time of the next one
  pub clock : Time
  -- what has been started on the host, newest first
  pub invoked : List Invocation

unfoldable pub tick : World → World
tick w = record w { clock = w.clock + 1 }

-- `new Date()`, and any other question to the host
unfoldable pub ask : {A : Type 0} → (Time → Result A) → Exec World A
unfolding tick
ask f w = (f w.clock, tick w)

unfoldable pub now : Exec World Time
unfolding tick
now w = (ok w.clock, tick w)

unfoldable pub note_invocation : Invocation → Exec World Unit
note_invocation i w = (ok tt, record w { invoked = i ∷ w.invoked })

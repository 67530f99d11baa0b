-- ===== src/Model/State.antt =====
-- state/types.ts: the persisted state of a run. Times are numbers, as the host's clock gives them.
-- Left out are fields that no modelled code reads: agent versions, platform degradations,
-- capabilities, the findings index, the inline log, commits and scope violations.
use dokion.Base.{ℕ, String, Bool, List, Option}
use dokion.Model.Json.{Json}
use dokion.Model.Playbook.{ExecutionMode, ApprovalPolicy, FailurePolicy, DokionPlatform}

abbrev pub Time : Type 0
Time = ℕ

pub data RunStatus : Type 0 where
  running awaiting_user completed stopped blocked failed tainted stale : RunStatus

pub data ExecutionStatus : Type 0 where
  pending in_progress awaiting_approval succeeded failed blocked : ExecutionStatus
  skipped_inapplicable skipped_by_user stopped_by_policy : ExecutionStatus

pub record VerificationResult : Type 0 where
  pub command : String
  pub exit_code : ℕ
  pub artifact : Option String

pub data Decision : Type 0 where
  approved rejected modified deferred : Decision

pub record ApprovalStateRecord : Type 0 where
  pub at : Time
  pub subject : String
  pub decision : Decision
  pub by : Option String

pub data LaneStatus : Type 0 where
  unassigned partial assigned : LaneStatus

pub record CoverageLaneState : Type 0 where
  pub lane : String
  pub status : LaneStatus
  pub assigned_capabilities : List String
  pub blocking : Bool
  pub acknowledged_by : Option String

pub data GateStatus : Type 0 where
  pass fail not_run skipped : GateStatus

pub record ReleaseGateState : Type 0 where
  pub id : String
  pub status : GateStatus
  pub blocking : Bool
  pub exit_code : Option ℕ
  pub artifact : Option String

pub record StepApproval : Type 0 where
  pub policy : ApprovalPolicy
  pub granted : Bool
  pub granted_by : Option String
  pub granted_at : Option Time
  pub scope : String

pub record StepState : Type 0 where
  pub id : String
  pub status : ExecutionStatus
  pub mode : Option ExecutionMode
  pub attempts : Option ℕ
  pub started_at : Option Time
  pub ended_at : Option Time
  pub approval : Option StepApproval
  pub findings : Option (List String)
  pub verification_results : Option (List VerificationResult)
  pub success_conditions_met : Option (List String)
  pub success_conditions_unmet : Option (List String)
  pub evidence : Option (List String)
  pub failure_reason : Option String
  pub applied_failure_policy : Option FailurePolicy
  pub skip_reason : Option String

pub record StageState : Type 0 where
  pub id : String
  pub status : ExecutionStatus
  pub started_at : Option Time
  pub ended_at : Option Time
  pub reason : Option String
  pub steps : List StepState

-- git/repository-identity.ts
pub record RepositoryIdentity : Type 0 where
  pub canonical_root : String
  pub root_digest : String
  pub worktree_id : String
  pub remote : Option String
  pub commit : Option String
  pub branch : Option String
  pub playbook_digest : String

pub data RepositoryIdentityField : Type 0 where
  canonical_root root_digest worktree_id remote commit branch playbook_digest :
      RepositoryIdentityField

pub record RepositoryIdentityDifference : Type 0 where
  pub field : RepositoryIdentityField
  pub expected : Option String
  pub actual : Option String

pub record Staleness : Type 0 where
  pub detected_at : Time
  pub changed_fields : List RepositoryIdentityField
  pub differences : List RepositoryIdentityDifference

pub record Run : Type 0 where
  pub id : String
  pub started_at : Time
  pub ended_at : Option Time
  pub status : RunStatus
  pub agent : Option DokionPlatform
  pub stale : Option Staleness

pub record Taint : Type 0 where
  pub expected : String
  pub observed : String
  pub detected_at : Time
  pub detected_before_step : String

pub record PlaybookState : Type 0 where
  pub digest : String
  pub verified_at : Time
  pub last_verified_before_step : Option String
  pub tainted : Option Taint

pub record Baseline : Type 0 where
  pub commit : Option String
  pub branch : Option String
  pub worktree_clean : Option Bool
  pub captured_at : Time

pub record DokionState : Type 0 where
  pub revision : ℕ
  pub run : Run
  pub repository_identity : RepositoryIdentity
  pub playbook : PlaybookState
  pub baseline : Option Baseline
  pub profile : Option (List (String × Json))
  pub stages : List StageState
  pub approvals : Option (List ApprovalStateRecord)
  pub release_gates : Option (List ReleaseGateState)
  pub suggestions : Option (List String)
  pub coverage : Option (List CoverageLaneState)

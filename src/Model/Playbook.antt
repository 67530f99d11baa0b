-- ===== src/Model/Playbook.antt =====
-- playbook/types.ts: the user-authored playbook. A field that the modelled code does not read
-- (names, notes, registry, manifest) is left out; an optional field is an `Option`.
use dokion.Base.{String, Bool, List, Option}
use dokion.Model.Json.{Json}

pub data ExecutionMode : Type 0 where
  read_only analyze configure fix_with_approval fix_automatically verify_only report_only :
      ExecutionMode

pub data ApprovalPolicy : Type 0 where
  never from_playbook before_install before_execution before_write before_each_fix : ApprovalPolicy
  before_commit always : ApprovalPolicy

pub data FailurePolicy : Type 0 where
  stop_pipeline stop_stage continue request_user_decision mark_blocked : FailurePolicy

pub data DokionPlatform : Type 0 where
  claude_code codex gemini_cli other : DokionPlatform

pub data InapplicablePolicy : Type 0 where
  skip mark_blocked stop_stage : InapplicablePolicy

pub data CoverageLaneStatus : Type 0 where
  assigned partial : CoverageLaneStatus

pub data ReadinessCap : Type 0 where
  not_ready conditionally_ready ready_for_staging : ReadinessCap

pub data StageExecution : Type 0 where
  sequential parallel : StageExecution

-- `boolean | string | unknown[]`, the expected value of a profile key
pub data ProfileExpectation : Type 0 where
  is_bool : Bool → ProfileExpectation
  is_text : String → ProfileExpectation
  has_all : List Json → ProfileExpectation

pub record Applicability : Type 0 where
  pub when_paths_exist : Option (List String)
  pub when_paths_absent : Option (List String)
  pub when_platform : Option (List DokionPlatform)
  pub when_profile : Option (List (String × ProfileExpectation))
  pub on_inapplicable : Option InapplicablePolicy

pub record CoverageLaneAssignment : Type 0 where
  pub lane : String
  pub status : CoverageLaneStatus

pub record CoverageGapAcknowledgement : Type 0 where
  pub lane : String
  pub acknowledged_by : String

pub record CoveragePolicy : Type 0 where
  pub blocking_lanes : Option (List String)
  pub acknowledged_gaps : Option (List CoverageGapAcknowledgement)
  pub unassigned_lane_readiness_cap : Option ReadinessCap

-- A command is the text that identifies it: the argument-vector form is not told apart.
pub record ReleaseGateDefinition : Type 0 where
  pub id : String
  pub command : Option String
  pub condition : Option String
  pub blocking : Bool

pub record CapabilityReference : Type 0 where
  pub type : String
  pub id : String

pub record PlaybookStep : Type 0 where
  pub id : String
  pub capability : CapabilityReference
  pub mode : ExecutionMode
  pub required : Option Bool
  pub depends_on : Option (List String)
  pub applicability : Option Applicability
  pub coverage_lanes : Option (List CoverageLaneAssignment)
  pub approval : Option ApprovalPolicy
  pub verification : Option (List String)
  pub success_conditions : Option (List String)
  pub failure_policy : Option FailurePolicy

pub record PlaybookStage : Type 0 where
  pub id : String
  pub execution : StageExecution
  pub depends_on : Option (List String)
  pub applicability : Option Applicability
  pub steps : List PlaybookStep

pub record Defaults : Type 0 where
  pub approval : Option ApprovalPolicy
  pub failure_policy : Option FailurePolicy

pub record DokionPlaybook : Type 0 where
  pub defaults : Option Defaults
  pub stages : List PlaybookStage
  pub release_gates : Option (List ReleaseGateDefinition)
  pub coverage_policy : Option CoveragePolicy

pub record LoadedPlaybook : Type 0 where
  pub digest : String
  pub playbook : DokionPlaybook

-- ===== src/Policy/Approval.antt =====
-- policy/approval-policy.ts
use dokion.Base.{String, Bool, true, false, not, ◌&&◌, Option, some, ◌==◌, if◌then◌else◌}

pub data ApprovalPolicyEnum : Type 0 where
  never from_playbook before_execution before_write before_each_fix before_commit always :
      ApprovalPolicyEnum

pub data ActionType : Type 0 where
  execute write fix commit : ActionType

pub record ApprovalContext : Type 0 where
  pub policy : ApprovalPolicyEnum
  pub has_user_approval : Bool
  pub action_type : ActionType
  pub approved_subject : Option String
  pub target_subject : Option String

pub record ApprovalDecision : Type 0 where
  pub allowed : Bool
  pub requires_approval : Bool

abbrev pub forbidden : ApprovalDecision
forbidden = record { allowed = false; requires_approval = true }

abbrev pub granted : ApprovalDecision
granted = record { allowed = true; requires_approval = false }

abbrev is_always : ApprovalPolicyEnum → Bool
is_always always = true
is_always _ = false

abbrev is_never : ApprovalPolicyEnum → Bool
is_never never = true
is_never _ = false

-- the four tests `policy === … && actionType === …`, in their order
abbrev before_action : ApprovalPolicyEnum → ActionType → Bool
before_action before_execution execute = true
before_action before_write write = true
before_action before_each_fix fix = true
before_action before_commit commit = true
before_action _ _ = false

-- two subjects are given, not empty, and differ
abbrev pub differ : Option String → Option String → Bool
differ (some t) (some a) = not (t == "") && (not (a == "") && not (t == a))
differ _ _ = false

unfoldable pub evaluate_approval_boundary : ApprovalContext → ApprovalDecision
evaluate_approval_boundary c =
    if is_never c.policy
    then forbidden
    else if is_always c.policy && not c.has_user_approval
    then forbidden
    else if before_action c.policy c.action_type && not c.has_user_approval
    then forbidden
    else if c.has_user_approval && differ c.target_subject c.approved_subject
    then forbidden
    else granted

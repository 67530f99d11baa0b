-- ===== src/Policy/ApprovalLaws.antt =====
-- policy/approval-policy.ts: which actions are allowed.
use dokion.Base.{String, ◌≡◌, refl, ◌≢◌, Bool, true, false, Option, arith}
use dokion.Policy.Approval.{
  ApprovalPolicyEnum, ActionType, execute, write, fix, commit, ApprovalContext,
  evaluate_approval_boundary, differ,
}

-- The actions that a policy makes wait for the user.
pub data Guarded : ApprovalPolicyEnum → ActionType → Type 0 where
  by_always : (a : ActionType) → Guarded ApprovalPolicyEnum.always a
  executes : Guarded ApprovalPolicyEnum.before_execution execute
  writes : Guarded ApprovalPolicyEnum.before_write write
  fixes : Guarded ApprovalPolicyEnum.before_each_fix fix
  commits : Guarded ApprovalPolicyEnum.before_commit commit

never_allowed :
    (c : ApprovalContext)
    → c.policy ≡ ApprovalPolicyEnum.never
    → (evaluate_approval_boundary c).allowed ≢ true
unfolding evaluate_approval_boundary
never_allowed c e h = ground arith

approved :
    (p : ApprovalPolicyEnum) (a : ActionType) (u : Bool) (s t : Option String)
    → Guarded p a
    → (evaluate_approval_boundary (record {
      policy = p;
      has_user_approval = u;
      action_type = a;
      approved_subject = s;
      target_subject = t;
    })).allowed
      ≡ true
    → u ≡ true
unfolding evaluate_approval_boundary
approved p a true s t g h = refl
approved _ _ false s t (by_always a) h = cc
approved _ _ false s t executes h = cc
approved _ _ false s t writes h = cc
approved _ _ false s t fixes h = cc
approved _ _ false s t commits h = cc

-- An action that is allowed is not under the policy NEVER; if its policy guards it, the user has
-- approved; and an approval that the user gave is not for another subject. No approval is required
-- for an action that is allowed.
pub evaluate_approval_boundary_sound :
    (c : ApprovalContext)
    → (evaluate_approval_boundary c).allowed ≡ true
    → (c.policy ≢ ApprovalPolicyEnum.never)
      × (Guarded c.policy c.action_type → c.has_user_approval ≡ true)
      × (c.has_user_approval ≡ true → differ c.target_subject c.approved_subject ≡ false)
      × ((evaluate_approval_boundary c).requires_approval ≡ false)
unfolding evaluate_approval_boundary
evaluate_approval_boundary_sound c h = (
  (λ e. never_allowed c e h),
  (λ g.
      approved c.policy c.action_type c.has_user_approval c.approved_subject c.target_subject g h),
  ground arith,
  ground arith,
)

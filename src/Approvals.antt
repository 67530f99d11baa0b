-- ===== src/Approvals.antt =====
-- approvals/approval-store.ts: decisions of the user, recorded in the state.
pub mod Recorded
mod Tests
use dokion.Base.{
  String, List, [], ◌∷◌, ◌++◌, Option, some, Bool, true, false, ok, ◌==◌, ◌or◌, keep, last,
  map_option, Exec, pure, ◌>>=◌, ◌>>◌,
}
use dokion.Model.State.{DokionState, ApprovalStateRecord, Decision}
use dokion.World.{Host, World, now, load, update}

pub record ApprovalInput : Type 0 where
  pub subject : String
  pub decision : Decision
  pub by : String

abbrev pub approvals : DokionState → List ApprovalStateRecord
approvals state = state.approvals or []

unfoldable pub latest_decision : DokionState → String → Option ApprovalStateRecord
latest_decision state subject = last (keep (λ r. r.subject == subject) (approvals state))

abbrev pub is_approved_decision : Decision → Bool
is_approved_decision Decision.approved = true
is_approved_decision _ = false

unfoldable pub is_approved : DokionState → String → Bool
unfolding latest_decision
is_approved state subject =
    map_option (λ r. is_approved_decision r.decision) (latest_decision state subject) or false

unfoldable pub record_approval : Host → ApprovalInput → Exec World ApprovalStateRecord
record_approval h input = do
  at ← now
  let approval : ApprovalStateRecord = record {
    at = at;
    subject = input.subject;
    decision = input.decision;
    by = some input.by;
  }
  current ← load h
  update h current.revision
      (λ state. ok (record state { approvals = some (approvals state ++ approval ∷ []) }))
  pure approval

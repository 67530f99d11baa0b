-- ===== src/Policy.antt =====
-- policy/failure-policy.ts and policy/approval-policy.ts: what a failure leads to, and which actions
-- need a user's approval. The messages are left out: no code reads them.
mod Failure
mod Approval
pub mod FailureLaws
pub mod ApprovalLaws
mod Tests
unfoldable pub use Failure.*
unfoldable pub use Approval.*

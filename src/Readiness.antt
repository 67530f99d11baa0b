-- ===== src/Readiness.antt =====
-- readiness/completion.ts: whether a run may claim completion.
mod Criteria
mod Completion
pub mod Claims
mod Coverage
mod Lanes
mod Statement
mod Ready
mod Gates
mod Conditions
mod Passed
mod Tests
unfoldable pub use Criteria.*
unfoldable pub use Completion.*

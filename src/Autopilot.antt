-- ===== src/Autopilot.antt =====
-- autopilot/: the next action of a run, retries, budgets, drift, and the loop over the turns.
mod NextAction
mod Limits
mod Turns
mod Samples
pub mod Selected
pub mod Drift
pub mod Progress
pub mod Completes
pub mod LimitLaws
mod Tests
unfoldable pub use NextAction.*
unfoldable pub use Limits.*
unfoldable pub use Turns.*

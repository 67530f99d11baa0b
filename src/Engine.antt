-- ===== src/Engine.antt =====
-- engine/: the runtime that executes the stages and steps of the active playbook in order.
mod Guards
mod States
mod Marks
mod Events
mod Step
mod Identity
mod Loop
mod Tests
pub mod Attempts
pub mod Quiet
pub mod Completed
pub mod Permit
pub mod Permitted
pub mod Resumed
unfoldable pub use Guards.*
unfoldable pub use States.*
unfoldable pub use Marks.*
unfoldable pub use Events.*
unfoldable pub use Step.*
unfoldable pub use Identity.*
unfoldable pub use Loop.*

-- ===== src/World.antt =====
-- The world that the runtime acts on (files under `.dokion/`, the host's clock and processes), and
-- the state store of state/state-store.ts, as actions on that world.
mod Interface
mod Platform
mod Store
pub mod Revision
pub mod Samples
mod Tests
unfoldable pub use Interface.*
unfoldable pub use Store.*

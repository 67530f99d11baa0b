-- ===== src/Events.antt =====
-- state/event-log.ts and state/event-chain.ts: the hash-chained event journal.
mod Digest
mod Journal
pub mod Order
pub mod Sequence
mod Signed
pub mod Tamper
pub mod Append
pub mod Samples
mod Tests
unfoldable pub use Digest.*
unfoldable pub use Journal.*

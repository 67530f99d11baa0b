-- ===== src/Engine/Marks.antt =====
-- The state changes of `ExecutionEngine` in engine/runtime-engine.ts, one mutator for each call of
-- `updateState`. A mutator reads the clock once, where the source may read it several times.
mod Progress
mod Outcomes
unfoldable pub use Progress.*
unfoldable pub use Outcomes.*

-- ===== src/Checkpoints.antt =====
-- state/checkpoint.ts and invocation/replay-policy.ts: what is written before and after a side
-- effect, and who may repeat one.
mod State
mod Begin
mod Complete
mod Later
mod Calls
mod Begun
mod Resumed
mod Tests

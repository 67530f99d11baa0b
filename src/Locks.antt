-- ===== src/Locks.antt =====
-- state/run-lock.ts and the lock of state/state-store.ts: the lock files, of which there is one per
-- project and purpose. A lock file is created by `writeFile` with the flag `wx`, which fails with
-- EEXIST if the file is there. Failures of the disk itself are not modelled.
mod Record
mod Run
mod RunLaws
mod Owners
mod Exclusive
mod Waiting
mod WaitingLaws
mod Tests

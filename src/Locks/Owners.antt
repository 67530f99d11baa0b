-- ===== src/Locks/Owners.antt =====
-- state/run-lock.ts: several processes that share one project. A move is a call of `acquireRunLock` or
-- `release` by some process that has returned, one of the four parts of `recoverStaleRunLock`, or the
-- end of a process; what throws changes nothing.
use dokion.Base.{String, false, List, [], ◌∷◌, ◌++◌, ok, ◌≡◌, ◌≢◌, All}
use dokion.Locks.Record.{RunLockOperation, RunLockRecord, Process, stale, process_status, read_lock}
use dokion.Locks.Run.{
  LockFiles, RunLockLease, acquire_run_lock, release, find_stale, recovery_of, copy_lock,
  log_recovery, remove_lock,
}

-- a recovery that has found a stale lock and not yet removed the file
pub record Recovery : Type 0 where
  pub process : Process
  pub existing : RunLockRecord

-- the files, the leases that running processes hold, and the recoveries under way
pub record System : Type 0 where
  pub files : LockFiles
  pub holders : List RunLockRecord
  pub recoveries : List Recovery

abbrev pub lease_of : RunLockRecord → RunLockLease
lease_of r = record { mine = r; released = false }

pub data Move : System → System → Type 0 where
  acquired :
      {s : System} (p : Process) (run_id : String) (operation : RunLockOperation)
      (r : RunLockRecord) (files : LockFiles)
      → acquire_run_lock p run_id operation s.files ≡ (ok r, files)
      → Move s (record s { files = files; holders = r ∷ s.holders })
  released :
      {s : System} (p : Process) (before after : List RunLockRecord) (r : RunLockRecord)
      (lease : RunLockLease) (files : LockFiles)
      → s.holders ≡ before ++ r ∷ after
      → release p (lease_of r) s.files ≡ (ok lease, files)
      → Move s (record s { files = files; holders = before ++ after })
  found :
      {s : System} (p : Process) (r : RunLockRecord)
      → find_stale p s.files ≡ (ok r, s.files)
      → Move s (record s { recoveries = record { process = p; existing = r } ∷ s.recoveries })
  copied :
      {s : System} (c : Recovery) (by reason : String)
      → Move s (record s { files = copy_lock (recovery_of c.process by reason c.existing) s.files })
  logged :
      {s : System} (c : Recovery) (by reason : String)
      → Move s
          (record s { files = log_recovery (recovery_of c.process by reason c.existing) s.files })
  removed :
      {s : System} (before after : List Recovery) (c : Recovery)
      → s.recoveries ≡ before ++ c ∷ after
      → Move s (record s { files = remove_lock s.files; recoveries = before ++ after })
  died :
      {s : System} (before after : List RunLockRecord) (r : RunLockRecord)
      → s.holders ≡ before ++ r ∷ after
      → Move s (record s { holders = before ++ after })

-- whatever the files are when nobody holds a lease yet and no recovery has begun
pub data Reachable : System → Type 0 where
  start : (files : LockFiles) → Reachable (record { files = files; holders = []; recoveries = [] })
  next : {s t : System} → Reachable s → Move s t → Reachable t

-- What a signal shows is true: no process that holds a lease is found gone.
abbrev pub Truthful : Process → List RunLockRecord → Type 0
Truthful p holders = All (λ r. process_status p r ≢ stale) holders

-- Of a removal: the file still holds the lock that the recovery has found, and signals are true.
-- The code does not make sure of the first.
abbrev pub Undisturbed : {s t : System} → Move s t → Type 0
Undisturbed {s} (removed before after c split) =
    (read_lock c.process s.files.lock ≡ ok c.existing) × Truthful c.process s.holders
Undisturbed _ = Unit

-- all removals of a run
abbrev pub AllUndisturbed : {s : System} → Reachable s → Type 0
AllUndisturbed (start files) = Unit
AllUndisturbed (next r m) = AllUndisturbed r × Undisturbed m

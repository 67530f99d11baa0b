-- ===== src/Locks/Run.antt =====
-- state/run-lock.ts: `acquireRunLock`, `release` of a lease, `recoverStaleRunLock`.
use dokion.Base.{
  String, Bool, true, false, ◌||◌, ◌==◌, List, [], ◌∷◌, ◌++◌, ◌⧺◌, if◌then◌else◌, Result, ok, err,
  ErrorCode, dokion_error, Exec, pure, throw, lift, gets, ◌>>=◌, ◌>>◌,
}
use dokion.Locks.Record.{
  RunLockOperation, LockProcess, RunLockRecord, Liveness, stale, Process, default_archive_directory,
  json_of, process_status, LockFile, absent, holds, read_lock,
}

pub record RunLockRecoveryRecord : Type 0 where
  pub recovered_at : String
  pub by : String
  pub reason : String
  pub previous_owner_token : String
  pub previous_run_id : String
  pub previous_operation : RunLockOperation
  pub previous_process : LockProcess
  pub archive_path : String

-- the files below `.dokion` that the run lock's code touches
pub record LockFiles : Type 0 where
  pub lock : LockFile
  -- copies of recovered locks with their paths, oldest first
  pub archive : List (String × LockFile)
  -- .dokion/recovery/run-locks.ndjson
  pub recovery_log : List RunLockRecoveryRecord

abbrev pub new_record : Process → String → RunLockOperation → RunLockRecord
new_record p run_id operation = record {
  owner_token = p.random_uuid;
  run_id = run_id;
  operation = operation;
  acquired_at = p.now;
  process = record { pid = p.pid; host = p.hostname };
}

-- `RUN_LOCK_STALE` or `RUN_LOCKED`, by the state of the process that owns the lock
abbrev pub refusal : Liveness → ErrorCode
refusal stale = ErrorCode.run_lock_stale
refusal _ = ErrorCode.run_locked

abbrev pub write_lock : LockFile → Exec LockFiles Unit
write_lock l w = (ok tt, record w { lock = l })

-- the branch on EEXIST
abbrev pub refuse_held : Process → LockFile → Result RunLockRecord
refuse_held p held = elim (read_lock p held) [
  | err e ↦ err e
  | ok existing ↦ err (dokion_error (refusal (process_status p existing)))
]

-- The write with `wx`, which creates the file or fails with EEXIST.
abbrev pub write_new : Process → RunLockRecord → LockFile → Exec LockFiles RunLockRecord
unfolding ◌>>=◌
write_new p mine absent = write_lock (holds (json_of mine)) >> pure mine
write_new p mine held = lift (refuse_held p held)

-- The record of the lease; `RunLockLease` adds whether `release` has been done.
unfoldable pub acquire_run_lock : Process → String → RunLockOperation → Exec LockFiles RunLockRecord
unfolding ◌>>=◌
acquire_run_lock p run_id operation = do
  held ← gets (λ w. w.lock)
  write_new p (new_record p run_id operation) held

pub record RunLockLease : Type 0 where
  pub mine : RunLockRecord
  pub released : Bool

unfoldable pub release : Process → RunLockLease → Exec LockFiles RunLockLease
unfolding ◌>>=◌
release p lease = if lease.released then pure lease else (do
  held ← gets (λ w. w.lock)
  current ← lift (read_lock p held)
  if current.owner_token == lease.mine.owner_token
      then write_lock absent >> pure (record lease { released = true })
      else throw (dokion_error ErrorCode.run_locked))

abbrev pub is_stale : Liveness → Bool
is_stale stale = true
is_stale _ = false

abbrev pub recovery_of : Process → String → String → RunLockRecord → RunLockRecoveryRecord
recovery_of p by reason existing = record {
  recovered_at = p.now;
  by = by;
  reason = reason;
  previous_owner_token = existing.owner_token;
  previous_run_id = existing.run_id;
  previous_operation = existing.operation;
  previous_process = existing.process;
  archive_path =
      default_archive_directory
      ⧺ "/"
      ⧺ p.without_colons p.now
      ⧺ "-"
      ⧺ existing.owner_token
      ⧺ ".json";
}

-- `copyFile`, `appendFile` and `rm` of the recovery, on whatever is at the path then
abbrev pub copy_lock : RunLockRecoveryRecord → LockFiles → LockFiles
copy_lock r w = record w { archive = w.archive ++ (r.archive_path, w.lock) ∷ [] }

abbrev pub log_recovery : RunLockRecoveryRecord → LockFiles → LockFiles
log_recovery r w = record w { recovery_log = w.recovery_log ++ r ∷ [] }

abbrev pub remove_lock : LockFiles → LockFiles
remove_lock w = record w { lock = absent }

-- the three in their order, where nothing comes in between
abbrev pub archive_and_remove : RunLockRecoveryRecord → Exec LockFiles Unit
archive_and_remove r w = (ok tt, remove_lock (log_recovery r (copy_lock r w)))

-- what is done before anything is written: the record of the stale lock
unfoldable pub find_stale : Process → Exec LockFiles RunLockRecord
unfolding ◌>>=◌
find_stale p = do
  held ← gets (λ w. w.lock)
  existing ← lift (read_lock p held)
  if is_stale (process_status p existing)
      then pure existing
      else throw (dokion_error ErrorCode.run_locked)

unfoldable pub recover_stale_run_lock :
    Process → String → String → Exec LockFiles RunLockRecoveryRecord
unfolding ◌>>=◌ find_stale
recover_stale_run_lock p by_text reason_text =
    let by = p.trim by_text in
    let reason = p.trim reason_text in
    if (by == "") || (reason == "") then throw (dokion_error ErrorCode.invalid_run_lock) else (do
      existing ← find_stale p
      archive_and_remove (recovery_of p by reason existing)
      pure (recovery_of p by reason existing))

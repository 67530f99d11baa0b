-- ===== src/Locks/RunLaws.antt =====
-- state/run-lock.ts: what each call does to the lock file, on every branch.
use dokion.Base.{
  ◌<◌, ◌≡◌, ◌≢◌, refl, String, true, [], ◌∷◌, ◌++◌, some, ◌==◌, inl, inr, ◌⊎◌, Result, ok, err,
  Fault, ErrorCode, dokion_error, arith, eq_iff, Result-cases, Bool-cases, ◌||◌, ◌>>=◌, ap,
}
use dokion.Locks.Record.{
  RunLockOperation, RunLockRecord, Liveness, live, stale, unknown, Process, json_of, process_status,
  LockFile, absent, unreadable, holds, read_lock, run, resume, step, reset, verify, autopilot,
  operation_of, operation_text,
}
use dokion.Locks.Run.{
  RunLockRecoveryRecord, LockFiles, RunLockLease, new_record, acquire_run_lock, release,
  recover_stale_run_lock, find_stale, recovery_of, refuse_held, is_stale, refusal, write_new,
}

operation_of-operation_text : (o : RunLockOperation) → operation_of (operation_text o) ≡ some o
unfolding operation_of operation_text
operation_of-operation_text run = refl
operation_of-operation_text resume = refl
operation_of-operation_text step = refl
operation_of-operation_text reset = refl
operation_of-operation_text verify = refl
operation_of-operation_text autopilot = refl

-- A record whose texts are of the required form is read back from the text that `acquireRunLock`
-- writes of it.
pub read_lock-json_of :
    (p : Process) (r : RunLockRecord)
    → p.is_token r.owner_token ≡ true
    → p.is_date r.acquired_at ≡ true
    → r.run_id ≢ ""
    → 0 < r.process.pid
    → r.process.host ≢ ""
    → read_lock p (holds (json_of r)) ≡ ok r
unfolding read_lock json_of
read_lock-json_of p r t d n pos h =
    ground
      (arith, operation_of-operation_text r.operation, eq_iff r.run_id "", eq_iff r.process.host "")

pub read_lock-eq-json_of :
    (p : Process) (r e : RunLockRecord) → read_lock p (holds (json_of r)) ≡ ok e → e ≡ r
unfolding read_lock json_of
read_lock-eq-json_of p r e h = ground (arith, operation_of-operation_text r.operation, h)

refuse_held-err : (p : Process) (l : LockFile) → (e : Fault) × (refuse_held p l ≡ err e)
refuse_held-err p l = elim (Result-cases (read_lock p l)) [
  | inl (existing, h) ↦
      (dokion_error (refusal (process_status p existing)), rw (refuse_held, is_stale, h) refl)
  | inr (e, h) ↦ (e, rw (refuse_held, is_stale, h) refl)
]

-- a call that has thrown and changed nothing
abbrev pub Refused : {A : Type 0} → LockFiles → Result A × LockFiles → Type 0
Refused w out = (e : Fault) × (out ≡ (err e, w))

abbrev pub AcquireOutcome :
    LockFile → LockFiles → RunLockRecord → Result RunLockRecord × LockFiles → Type 0
AcquireOutcome absent w mine out = out ≡ (ok mine, record w { lock = holds (json_of mine) })
AcquireOutcome _ w mine out = Refused w out

-- `acquireRunLock` gives a lease exactly where there is no lock file, and then the file holds the
-- lease's record. In all other cases it throws and leaves every file as it was.
pub acquire_run_lock_lem :
    (p : Process) (run_id : String) (operation : RunLockOperation) (w : LockFiles)
    → AcquireOutcome w.lock w
        (new_record p run_id operation)
        (acquire_run_lock p run_id operation w)
unfolding acquire_run_lock ◌>>=◌
acquire_run_lock_lem p run_id operation w = on_lock w.lock
  where
    refused : {A : Type 0} {r : Result A} → (e : Fault) × (r ≡ err e) → Refused w (r, w)
    refused (e, h) = (e, ap (λ t. (t, w)) h)

    on_lock :
        (l : LockFile)
        → AcquireOutcome l w
            (new_record p run_id operation)
            (write_new p (new_record p run_id operation) l w)
    on_lock absent = refl
    on_lock unreadable = refused (refuse_held-err p unreadable)
    on_lock (holds v) = refused (refuse_held-err p (holds v))

-- `release` removed the lock file, which held a record with the lease's own token.
abbrev pub Removed : Process → RunLockLease → LockFiles → Result RunLockLease × LockFiles → Type 0
Removed p lease w out =
    (current : RunLockRecord) × (read_lock p w.lock ≡ ok current)
    × (current.owner_token ≡ lease.mine.owner_token)
    × (out ≡ (ok (record lease { released = true }), record w { lock = absent }))

-- `release` removes the lock file only if that holds the lease's own token. It does nothing on a
-- lease that is released already, and in all other cases it throws and leaves every file as it was.
pub release_lem :
    (p : Process) (lease : RunLockLease) (w : LockFiles)
    → Refused w (release p lease w)
      ⊎ ((lease.released ≡ true) × (release p lease w ≡ (ok lease, w)))
      ⊎ Removed p lease w (release p lease w)
unfolding release ◌>>=◌
release_lem p lease w = elim (Bool-cases lease.released) [
  | inl t ↦ inr (inl (t, rw t refl))
  | inr f ↦ elim (Result-cases (read_lock p w.lock)) [
    | inr (e, h) ↦ inl (e, rw (f, h) refl)
    | inl (current, h) ↦ elim (Bool-cases (current.owner_token == lease.mine.owner_token)) [
      | inl own ↦ inr (
          inr (
            current,
            h,
            (eq_iff current.owner_token lease.mine.owner_token).0 own,
            rw (f, h, own) refl,
          ))
      | inr other ↦ inl (dokion_error ErrorCode.run_locked, rw (f, h, other) refl)
    ]
  ]
]

-- `recoverStaleRunLock` removed the lock of a process that does not run any more, and has kept a
-- copy of the file and a record of who removed it and why.
pub record Recovered (p : Process) (w : LockFiles) (out : Result RunLockRecoveryRecord × LockFiles)
    : Type 0 where
  pub existing : RunLockRecord
  pub found : read_lock p w.lock ≡ ok existing
  pub gone : process_status p existing ≡ stale
  pub recovery : RunLockRecoveryRecord
  pub of_owner : recovery.previous_owner_token ≡ existing.owner_token
  pub has_actor : recovery.by ≢ ""
  pub has_reason : recovery.reason ≢ ""
  pub files : out ≡ (
    ok recovery,
    record {
      lock = absent;
      archive = w.archive ++ (recovery.archive_path, w.lock) ∷ [];
      recovery_log = w.recovery_log ++ recovery ∷ [];
    },
  )

is_stale-eq : (l : Liveness) → is_stale l ≡ true → l ≡ stale
is_stale-eq stale h = refl
is_stale-eq live h = cc
is_stale-eq unknown h = cc

-- `recoverStaleRunLock` removes the lock file only if that holds the record of a process that is
-- found to run no more, and then a copy of the file is in the archive and the last line of the log
-- names the removed owner, an actor and a reason that are not empty. In all other cases it throws
-- and leaves every file as it was.
pub recover_stale_run_lock_lem :
    (p : Process) (by reason : String) (w : LockFiles)
    → Refused w (recover_stale_run_lock p by reason w)
      ⊎ Recovered p w (recover_stale_run_lock p by reason w)
unfolding recover_stale_run_lock find_stale ◌>>=◌
recover_stale_run_lock_lem p by reason w =
    elim (Bool-cases ((p.trim by == "") || (p.trim reason == ""))) [
      | inl empty ↦ inl (dokion_error ErrorCode.invalid_run_lock, rw empty refl)
      | inr given ↦ elim (Result-cases (read_lock p w.lock)) [
        | inr (e, h) ↦ inl (e, rw (given, h) refl)
        | inl (existing, h) ↦ elim (Bool-cases (is_stale (process_status p existing))) [
          | inr other ↦ inl (dokion_error ErrorCode.run_locked, rw (given, h, other) refl)
          | inl gone ↦ inr (record {
            existing = existing;
            found = h;
            gone = is_stale-eq (process_status p existing) gone;
            recovery = recovery_of p (p.trim by) (p.trim reason) existing;
            of_owner = refl;
            has_actor = λ e. ground (arith, given, eq_iff (p.trim by) "");
            has_reason = λ e. ground (arith, given, eq_iff (p.trim reason) "");
            files = rw (given, h, gone) refl;
          })
        ]
      ]
    ]

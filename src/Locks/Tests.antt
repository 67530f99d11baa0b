-- ===== src/Locks/Tests.antt =====
-- The lock files on small examples, and two recoveries of one stale lock that overlap.
use dokion.Base.{
  ℕ, ◌*◌, ◌≡◌, refl, String, Bool, true, false, [], ◌∷◌, ◌⊎◌, none, some, ok, err, ErrorCode,
  dokion_error, Exec, pure, ◌>>=◌, ◌>>◌, arith, eqb, if◌then◌else◌, ltb,
}
use dokion.Locks.Record.{
  RunLockRecord, Process, Signal, delivered, no_such_process, process_status, json_of, LockFile,
  absent, unreadable, holds, read_lock, run, resume, operation_text, operation_of,
}
use dokion.Locks.Run.{
  LockFiles, new_record, acquire_run_lock, release, find_stale, recovery_of, archive_and_remove,
  recover_stale_run_lock,
}
use dokion.Locks.RunLaws.{
  AcquireOutcome, Refused, Removed, Recovered, read_lock-json_of, acquire_run_lock_lem, release_lem,
  recover_stale_run_lock_lem,
}
use dokion.Locks.Owners.{System, Move, acquired, found, removed, Reachable, start, next, lease_of}
use dokion.Locks.Exclusive.{Exclusive, MutexMove, reachable-Exclusive, Move-MutexMove}
use dokion.Locks.Waiting.{
  StateTransitionLockRecord, transition_json, transition_lock_is_dead, read_transition_lock,
  wait_for_transition_lock, Guarded, under_transition_lock, under_append_lock,
}
use dokion.Locks.WaitingLaws.{
  Paced, Ended, GuardedOutcome, wait_for_transition_lock_ends, under_transition_lock_lem,
}

-- process 7 is gone
abbrev kill : ℕ → Signal
kill pid = if eqb pid 7 then no_such_process else delivered

abbrev process : ℕ → String → Process
process pid uuid = record {
  pid = pid;
  hostname = "host";
  kill = kill;
  now = "2026-01-01T00:00:00.000Z";
  random_uuid = uuid;
  is_token = λ _. true;
  is_date = λ _. true;
  trim = λ s. s;
  without_colons = λ s. s;
}

abbrev nothing : LockFiles
nothing = record { lock = absent; archive = []; recovery_log = [] }

abbrev of_seven : RunLockRecord
of_seven = new_record (process 7 "seven") "R1" run

abbrev stale_lock : LockFiles
stale_lock = record nothing { lock = holds (json_of of_seven) }

abbrev held_by : RunLockRecord → LockFiles
held_by r = record nothing { lock = holds (json_of r) }

abbrev of_one : RunLockRecord
of_one = new_record (process 1 "one") "R1" run

one_acquires : acquire_run_lock (process 1 "one") "R1" run nothing ≡ (ok of_one, held_by of_one)
unfolding acquire_run_lock ◌>>=◌
one_acquires = refl

two_is_refused :
    acquire_run_lock (process 2 "two") "R1" resume (held_by of_one)
    ≡ (err (dokion_error ErrorCode.run_locked), held_by of_one)
unfolding acquire_run_lock ◌>>=◌ read_lock json_of process_status operation_text operation_of
two_is_refused = refl

stale_is_reported :
    acquire_run_lock (process 2 "two") "R1" resume stale_lock
    ≡ (err (dokion_error ErrorCode.run_lock_stale), stale_lock)
unfolding acquire_run_lock ◌>>=◌ read_lock json_of process_status operation_text operation_of
stale_is_reported = refl

one_releases :
    release (process 1 "one") (lease_of of_one) (held_by of_one)
    ≡ (ok (record { mine = of_one; released = true }), nothing)
unfolding release ◌>>=◌ read_lock json_of operation_text operation_of
one_releases = refl

-- Two processes find the same stale lock. The first removes it and takes the lock; the second then
-- removes the lock of the first and takes it too: both hold a lease.
both_recover : Exec LockFiles (RunLockRecord × RunLockRecord)
both_recover = do
  seen_by_one ← find_stale (process 1 "one")
  seen_by_two ← find_stale (process 2 "two")
  archive_and_remove (recovery_of (process 1 "one") "one" "stale" seen_by_one)
  first ← acquire_run_lock (process 1 "one") "R1" run
  archive_and_remove (recovery_of (process 2 "two") "two" "stale" seen_by_two)
  second ← acquire_run_lock (process 2 "two") "R2" run
  pure (first, second)

two_leases_at_once :
    (both_recover stale_lock).0 ≡ ok (of_one, new_record (process 2 "two") "R2" run)
unfolding both_recover find_stale acquire_run_lock ◌>>=◌ read_lock json_of process_status
    operation_text operation_of
two_leases_at_once = refl

abbrev mine : StateTransitionLockRecord
mine = record { owner_token = "t"; pid = 1; host = "host"; acquired_at = "now" }

abbrev take_over : Exec (Guarded ℕ) Unit
take_over w = (ok tt, record w { lock = unreadable })

-- `finally` of `withAppendLock` removes a lock that another process has put there.
append_lock_of_other_removed :
    (under_append_lock
      (transition_json mine)
      take_over
      (record { lock = absent; content = 0 })).1.lock
    ≡ absent
unfolding under_append_lock
append_lock_of_other_removed = refl

read_lock-json_of_example : read_lock (process 2 "two") (holds (json_of of_one)) ≡ ok of_one
read_lock-json_of_example =
    read_lock-json_of (process 2 "two") of_one refl refl (λ h. cc) (omega arith) (λ h. cc)

acquire_run_lock_lem_example :
    AcquireOutcome absent nothing of_one (acquire_run_lock (process 1 "one") "R1" run nothing)
acquire_run_lock_lem_example = acquire_run_lock_lem (process 1 "one") "R1" run nothing

release_lem_example :
    Refused (held_by of_one) (release (process 1 "one") (lease_of of_one) (held_by of_one))
    ⊎ ((false ≡ true)
        × (release (process 1 "one") (lease_of of_one) (held_by of_one)
            ≡ (ok (lease_of of_one), held_by of_one)))
    ⊎ Removed
        (process 1 "one")
        (lease_of of_one)
        (held_by of_one)
        (release (process 1 "one") (lease_of of_one) (held_by of_one))
release_lem_example = release_lem (process 1 "one") (lease_of of_one) (held_by of_one)

recover_stale_run_lock_lem_example :
    Refused stale_lock (recover_stale_run_lock (process 2 "two") "two" "crash" stale_lock)
    ⊎ Recovered
        (process 2 "two")
        stale_lock
        (recover_stale_run_lock (process 2 "two") "two" "crash" stale_lock)
recover_stale_run_lock_lem_example =
    recover_stale_run_lock_lem (process 2 "two") "two" "crash" stale_lock

-- process 2 finds the stale lock, removes it, and takes the lock
abbrev of_two : RunLockRecord
of_two = new_record (process 2 "two") "R1" resume

abbrev found_stale : System
found_stale = record {
  files = stale_lock;
  holders = [];
  recoveries = record { process = process 2 "two"; existing = of_seven } ∷ [];
}

abbrev two_holds : System
two_holds = record { files = held_by of_two; holders = of_two ∷ []; recoveries = [] }

seven_is_stale : find_stale (process 2 "two") stale_lock ≡ (ok of_seven, stale_lock)
unfolding find_stale ◌>>=◌ read_lock json_of process_status operation_text operation_of
seven_is_stale = refl

seven_is_read : read_lock (process 2 "two") stale_lock.lock ≡ ok of_seven
unfolding read_lock json_of operation_text operation_of
seven_is_read = refl

two_acquires : acquire_run_lock (process 2 "two") "R1" resume nothing ≡ (ok of_two, held_by of_two)
unfolding acquire_run_lock ◌>>=◌
two_acquires = refl

abbrev emptied : System
emptied = record { files = nothing; holders = []; recoveries = [] }

abbrev two_removes : Move found_stale emptied
two_removes = removed [] [] (record { process = process 2 "two"; existing = of_seven }) refl

abbrev two_takes : Move emptied two_holds
two_takes = acquired (process 2 "two") "R1" resume of_two (held_by of_two) two_acquires

abbrev recovery : Reachable emptied
recovery =
    next (next (start stale_lock) (found (process 2 "two") of_seven seven_is_stale)) two_removes

reachable-Exclusive_example : Exclusive (held_by of_two) (of_two ∷ [])
reachable-Exclusive_example =
    reachable-Exclusive (next recovery two_takes) (((tt, tt), (seven_is_read, tt)), tt)

Move-MutexMove_example : MutexMove none (some of_two)
Move-MutexMove_example = Move-MutexMove recovery two_takes ((tt, tt), (seven_is_read, tt)) tt

-- another process holds the file for two attempts
abbrev answers : ℕ → LockFile
answers n = if ltb n 2 then unreadable else absent

abbrev clock : ℕ → ℕ
clock n = 5 * n

answers-Paced :
    (is_dead : LockFile → Bool)
    → is_dead unreadable ≡ false
    → is_dead absent ≡ false
    → Paced is_dead answers clock 0 0
answers-Paced is_dead h k = record {
  none_dead = λ n. ground (arith, h, k);
  sleeps = λ n. omega arith;
  later = omega arith;
}

unreadable_not_dead : transition_lock_is_dead (process 1 "one") unreadable ≡ false
unfolding read_transition_lock
unreadable_not_dead = refl

absent_not_dead : transition_lock_is_dead (process 1 "one") absent ≡ false
unfolding read_transition_lock
absent_not_dead = refl

wait_for_transition_lock_ends_example :
    Ended answers clock 2000 (wait_for_transition_lock (process 1 "one") answers clock 0 401)
wait_for_transition_lock_ends_example =
    wait_for_transition_lock_ends (process 1 "one") answers clock 0 0 401
      (answers-Paced (transition_lock_is_dead (process 1 "one")) unreadable_not_dead
        absent_not_dead)
      (omega arith)

under_transition_lock_lem_example :
    GuardedOutcome mine
      (take_over (record { lock = holds (transition_json mine); content = 0 }))
      (under_transition_lock mine take_over (record { lock = absent; content = 0 }))
under_transition_lock_lem_example =
    under_transition_lock_lem mine take_over (record { lock = absent; content = 0 })

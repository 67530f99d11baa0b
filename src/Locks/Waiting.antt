-- ===== src/Locks/Waiting.antt =====
-- The transition lock of state/state-store.ts (`withTransitionLock`) and the append lock of
-- state/event-log.ts (`withAppendLock`): the loop that waits for the lock file, and what is done
-- with it afterwards. What other processes do to the file is arbitrary: `found n` is what attempt
-- `n` finds, and `clock n` is `Date.now()` then.
use dokion.Base.{
  ℕ, zero, suc, ◌+◌, String, Bool, true, false, not, ◌&&◌, ◌==◌, Option, none, some, leb,
  if◌then◌else◌, Result, ok, err, ErrorCode, dokion_error, Exec,
}
use dokion.Model.Json.{Json, str, num, obj, end, field, get}
use dokion.Locks.Record.{Process, no_such_process, LockFile, absent, holds}

pub record StateTransitionLockRecord : Type 0 where
  pub owner_token : String
  pub pid : ℕ
  pub host : String
  pub acquired_at : String

-- `isProcessLive`: only ESRCH shows that a process is gone
abbrev pub is_process_live : Process → ℕ → Bool
is_process_live p pid = elim (p.kill pid) [ no_such_process ↦ false | _ ↦ true ]

abbrev transition_record :
    Option Json → Option Json → Option Json → Option Json → Option StateTransitionLockRecord
transition_record (some (str token)) (some (num pid)) (some (str host)) (some (str at)) =
    some (record { owner_token = token; pid = pid; host = host; acquired_at = at })
transition_record _ _ _ _ = none

-- `undefined` for a file that is not there, is no JSON or has not the four fields
unfoldable pub read_transition_lock : LockFile → Option StateTransitionLockRecord
read_transition_lock (holds (obj fs)) =
    transition_record (get "owner_token" fs) (get "pid" fs) (get "host" fs) (get "acquired_at" fs)
read_transition_lock _ = none

unfoldable pub transition_json : StateTransitionLockRecord → Json
transition_json r = obj (
    field "owner_token" (str r.owner_token) (
      field "pid" (num r.pid)
        (field "host" (str r.host) (field "acquired_at" (str r.acquired_at) end))))

abbrev pub transition_lock_is_dead : Process → LockFile → Bool
transition_lock_is_dead p held = elim (read_transition_lock held) [
  | none ↦ false
  | some r ↦ r.host == p.hostname && not (is_process_live p r.pid)
]

abbrev number_is_live : Process → Option Json → Bool
number_is_live p (some (num pid)) = is_process_live p pid
number_is_live p _ = true

abbrev host_is : Process → Option Json → Bool
host_is p (some (str host)) = host == p.hostname
host_is p _ = false

-- the record of the append lock is used without a check of its fields; a `pid` that is no number
-- makes `process.kill` throw another error than ESRCH
abbrev pub append_lock_is_dead : Process → LockFile → Bool
append_lock_is_dead p (holds (obj fs)) =
    host_is p (get "host" fs) && not (number_is_live p (get "pid" fs))
append_lock_is_dead p _ = false

-- how the loop ends, with the number of the last attempt
pub data Wait : Type 0 where
  created : (attempt : ℕ) → Wait
  deadline_passed : (attempt : ℕ) → Wait
  out_of_fuel : Wait

abbrev pub is_absent : LockFile → Bool
is_absent absent = true
is_absent _ = false

module _ (is_dead : LockFile → Bool) (found : ℕ → LockFile) (clock : ℕ → ℕ) (deadline : ℕ) where
  -- One round: create the file, or remove that of a dead process and try again at once, or give up
  -- at the deadline, or sleep and try again.
  unfoldable pub wait_for_lock : (fuel attempt : ℕ) → Wait
  wait_for_lock zero n = out_of_fuel
  wait_for_lock (suc fuel) n =
      let again = wait_for_lock fuel (n + 1) in
      if is_absent (found n)
      then created n
      else if is_dead (found n)
      then again
      else if leb deadline (clock n)
      then deadline_passed n
      else again

-- `Date.now() + 2_000`, with the time when the loop is entered
unfoldable pub wait_for_transition_lock : Process → (ℕ → LockFile) → (ℕ → ℕ) → ℕ → ℕ → Wait
wait_for_transition_lock p found clock entered fuel =
    wait_for_lock (transition_lock_is_dead p) found clock (entered + 2000) fuel 0

unfoldable pub wait_for_append_lock : Process → (ℕ → LockFile) → (ℕ → ℕ) → ℕ → ℕ → Wait
wait_for_append_lock p found clock entered fuel =
    wait_for_lock (append_lock_is_dead p) found clock (entered + 2000) fuel 0

-- the lock file beside all else that the action sees and changes
pub record Guarded (T : Type 0) : Type 0 where
  pub lock : LockFile
  pub content : T

abbrev pub is_owner : StateTransitionLockRecord → LockFile → Bool
is_owner mine held = elim (read_transition_lock held) [
  | none ↦ false
  | some r ↦ r.owner_token == mine.owner_token
]

unfoldable pub assert_ownership : StateTransitionLockRecord → LockFile → Result (Unit {0})
assert_ownership mine held =
    if is_owner mine held then ok tt else err (dokion_error ErrorCode.state_write_locked)

-- `finally`: the file is removed if it is still this lease's
abbrev pub remove_own : StateTransitionLockRecord → LockFile → LockFile
remove_own mine held = if is_owner mine held then absent else held

abbrev pub confirm : {A : Type 0} → Result A → Result (Unit {0}) → Result A
confirm (err e) owned = err e
confirm (ok a) (ok _) = ok a
confirm (ok a) (err e) = err e

module _ {T A : Type 0} where
  -- What follows the creation of the file: the action, which may see other processes change the
  -- file and is told by `assert_ownership` whether they have, a last check, and `finally`.
  unfoldable pub under_transition_lock :
      StateTransitionLockRecord → Exec (Guarded T) A → Exec (Guarded T) A
  unfolding assert_ownership
  under_transition_lock mine action w =
      let (r, w') = action (record w { lock = holds (transition_json mine) }) in
      (confirm r (assert_ownership mine w'.lock), record w' { lock = remove_own mine w'.lock })

  -- the append lock is removed without a look at whose it is
  unfoldable pub under_append_lock : Json → Exec (Guarded T) A → Exec (Guarded T) A
  under_append_lock mine action w =
      let (r, w') = action (record w { lock = holds mine }) in (r, record w' { lock = absent })

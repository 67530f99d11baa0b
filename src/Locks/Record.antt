-- ===== src/Locks/Record.antt =====
-- state/run-lock.ts: the record in `.dokion/run.lock.json`, and how it is read.
use dokion.Base.{
  ℕ, String, Bool, false, not, ◌&&◌, ◌==◌, eqb, ltb, Option, none, some, if◌then◌else◌, Result, ok,
  err, ErrorCode, dokion_error,
}
use dokion.Model.Json.{Json, Fields, str, num, obj, end, field, get}

pub data RunLockOperation : Type 0 where
  run resume step reset verify autopilot : RunLockOperation

pub record LockProcess : Type 0 where
  pub pid : ℕ
  pub host : String

-- Without `schema_version` and `recovery`, which are constants of the type.
pub record RunLockRecord : Type 0 where
  pub owner_token : String
  pub run_id : String
  pub operation : RunLockOperation
  pub acquired_at : String
  pub process : LockProcess

pub data Liveness : Type 0 where
  live stale unknown : Liveness

-- `process.kill(pid, 0)`: it returns, throws ESRCH, or throws another error
pub data Signal : Type 0 where
  delivered no_such_process refused : Signal

-- What the operating system and the JavaScript runtime answer to one process.
pub record Process : Type 0 where
  pub pid : ℕ
  pub hostname : String
  pub kill : ℕ → Signal
  -- `new Date().toISOString()` and `crypto.randomUUID()`
  pub now : String
  pub random_uuid : String
  -- `/^[A-Za-z0-9._-]+$/.test` and `Number.isFinite(Date.parse(…))`
  pub is_token : String → Bool
  pub is_date : String → Bool
  -- `String.prototype.trim` and `s.replaceAll(":", "-")`
  pub trim : String → String
  pub without_colons : String → String

abbrev pub default_archive_directory : String
default_archive_directory = ".dokion/recovery/run-locks"

unfoldable pub operation_text : RunLockOperation → String
operation_text run = "run"
operation_text resume = "resume"
operation_text step = "step"
operation_text reset = "reset"
operation_text verify = "verify"
operation_text autopilot = "autopilot"

-- `RUN_LOCK_OPERATIONS`, read back from the text
unfoldable pub operation_of : String → Option RunLockOperation
operation_of t =
    if t == "run"
    then some run
    else if t == "resume"
    then some resume
    else if t == "step"
    then some step
    else if t == "reset"
    then some reset
    else if t == "verify"
    then some verify
    else if t == "autopilot"
    then some autopilot
    else none

-- the object that `JSON.stringify` writes
unfoldable pub json_of : RunLockRecord → Json
json_of r = obj (
    field "schema_version" (num 1) (
      field "owner_token" (str r.owner_token) (
        field "run_id" (str r.run_id) (
          field "operation" (str (operation_text r.operation)) (
            field "acquired_at" (str r.acquired_at) (
              field "process"
                (obj (field "pid" (num r.process.pid) (field "host" (str r.process.host) end)))
                (field "recovery"
                  (obj (
                    field "status" (str "ACTIVE")
                      (field "archive_directory" (str default_archive_directory) end)))
                  end)))))))

abbrev fields_at : String → Option Fields → Option Fields
fields_at k none = none
fields_at k (some fs) = elim (get k fs) [ some (obj gs) ↦ some gs | _ ↦ none ]

abbrev text_at : String → Option Fields → Option String
text_at k none = none
text_at k (some fs) = elim (get k fs) [ some (str s) ↦ some s | _ ↦ none ]

abbrev number_at : String → Option Fields → Option ℕ
number_at k none = none
number_at k (some fs) = elim (get k fs) [ some (num n) ↦ some n | _ ↦ none ]

abbrev is_number : ℕ → Option ℕ → Bool
is_number n none = false
is_number n (some m) = eqb m n

abbrev is_text : String → Option String → Bool
is_text t none = false
is_text t (some s) = s == t

module _ (p : Process) where
  abbrev process_of : Option ℕ → Option String → Option LockProcess
  process_of (some pid) (some host) =
      if ltb 0 pid && not (host == "") then some (record { pid = pid; host = host }) else none
  process_of _ _ = none

  abbrev owned_by :
      Option String
      → Option String
      → Option RunLockOperation
      → Option String
      → Option LockProcess
      → Option RunLockRecord
  owned_by (some token) (some run_id) (some operation) (some at) (some process) =
      if p.is_token token && (not (run_id == "") && p.is_date at)
      then some (record {
        owner_token = token;
        run_id = run_id;
        operation = operation;
        acquired_at = at;
        process = process;
      })
      else none
  owned_by _ _ _ _ _ = none

  abbrev operation_at : Option String → Option RunLockOperation
  operation_at none = none
  operation_at (some t) = operation_of t

  abbrev record_in : Fields → Option RunLockRecord
  record_in fs =
      let process = fields_at "process" (some fs) in
      let recovery = fields_at "recovery" (some fs) in
      if is_number 1 (number_at "schema_version" (some fs))
        && (is_text "ACTIVE" (text_at "status" recovery)
            && is_text default_archive_directory (text_at "archive_directory" recovery))
      then owned_by (text_at "owner_token" (some fs)) (text_at "run_id" (some fs))
          (operation_at (text_at "operation" (some fs))) (text_at "acquired_at" (some fs))
          (process_of (number_at "pid" process) (text_at "host" process))
      else none

  -- `isValidRecord`, with the record that the value is read as
  unfoldable pub valid_record : Json → Option RunLockRecord
  valid_record (obj fs) = record_in fs
  valid_record _ = none

  unfoldable pub process_status : RunLockRecord → Liveness
  process_status r =
      if r.process.host == p.hostname
      then elim (p.kill r.process.pid) [
        | delivered ↦ live
        | no_such_process ↦ stale
        | refused ↦ unknown
      ]
      else unknown

-- a lock file: there is none, its text is no JSON, or its text is that of a value
pub data LockFile : Type 0 where
  absent unreadable : LockFile
  holds : Json → LockFile

-- Reading a file that is not there throws, which is reported as an invalid lock.
unfoldable pub read_lock : Process → LockFile → Result RunLockRecord
unfolding valid_record
read_lock p (holds value) = elim (valid_record p value) [
  | none ↦ err (dokion_error ErrorCode.invalid_run_lock)
  | some r ↦ ok r
]
read_lock p _ = err (dokion_error ErrorCode.invalid_run_lock)

-- ===== src/Checkpoints/State.antt =====
-- state/checkpoint.ts: the checkpoint files and how one is read, and what the other operations share.
use dokion.Base.{
  ℕ, String, Bool, not, ◌&&◌, List, [], ◌∷◌, Option, none, some, ◌==◌, ltb, eqb, ◌or◌,
  if◌then◌else◌, Result, ok, err, ErrorCode, dokion_error, plain_error, Exec, lift, gets, ◌>>=◌,
  ◌>>◌,
}
use dokion.Model.Json.{Json}

pub data SideEffectKind : Type 0 where
  command file_write network install repair other : SideEffectKind

pub data SideEffectStatus : Type 0 where
  started started_unknown completed failed : SideEffectStatus

pub record SideEffectIntent : Type 0 where
  pub run_id : String
  pub step_id : String
  pub kind : SideEffectKind
  pub subject : String
  pub idempotency_key : String
  pub parameters_digest : String
  pub started_at : Option String

-- the two outcomes by their status, with the fields that `normalizeOutcome` reads of each
pub data OutcomeStatus : Type 0 where
  outcome_completed : (result_digest : Option String) → OutcomeStatus
  outcome_failed : (error_code : Option String) → OutcomeStatus

pub record SideEffectOutcome : Type 0 where
  pub status : OutcomeStatus
  pub at : Option String
  pub evidence : List String

pub record SideEffectCheckpoint : Type 0 where
  pub schema_version : ℕ
  pub id : String
  pub revision : ℕ
  pub status : SideEffectStatus
  pub run_id : String
  pub step_id : String
  pub kind : SideEffectKind
  pub subject : String
  pub intent_digest : String
  pub parameters_digest : String
  pub started_at : String
  pub recovery_observed_at : Option String
  pub completed_at : Option String
  pub result_digest : Option String
  pub evidence : List String
  pub error_code : Option String

-- What the JavaScript runtime and SHA-256 answer.
pub record Runtime : Type 0 where
  pub now : String
  -- `!Number.isNaN(Date.parse(…))`
  pub is_date : String → Bool
  -- `test` of the patterns DIGEST, IDENTIFIER, `^side-effect-[a-f0-9]{32}$` and `[\u0000-\u001f]`
  pub is_digest : String → Bool
  pub is_identifier : String → Bool
  pub is_checkpoint_id : String → Bool
  pub has_control : String → Bool
  -- `trim`, `length`, `includes`, `split` and `slice` of a text
  pub trim : String → String
  pub text_length : String → ℕ
  pub text_includes : String → String → Bool
  pub split : String → String → List String
  pub slice : String → ℕ → ℕ → String
  -- `JSON.stringify`
  pub stringify : Json → String
  pub sha256 : String → String

-- the text of a file: not JSON, or that of a checkpoint
pub data CheckpointFile : Type 0 where
  unreadable : CheckpointFile
  holds : SideEffectCheckpoint → CheckpointFile

-- .dokion/checkpoints/side-effects, by file name less `.json`
abbrev pub Files : Type 0
Files = List (String × CheckpointFile)

abbrev pub file_at : String → Files → Option CheckpointFile
file_at k [] = none
file_at k ((j, f) ∷ rest) = if j == k then some f else file_at k rest

abbrev pub put : String → CheckpointFile → Files → Files
put k f [] = (k, f) ∷ []
put k f ((j, g) ∷ rest) =
    let rest' = put k f rest in if j == k then (j, f) ∷ rest else (j, g) ∷ rest'

abbrev pub write_checkpoint : String → SideEffectCheckpoint → Exec Files Unit
write_checkpoint id c w = (ok tt, put id (holds c) w)

abbrev pub require : {A : Type 0} → Bool → A → Result A
require b a = if b then ok a else err (dokion_error ErrorCode.invalid_state)

abbrev pub require_some : (String → Bool) → Option String → Result String
require_some p none = err (dokion_error ErrorCode.invalid_state)
require_some p (some t) = require (not (t == "") && p t) t

abbrev pub check_loaded : String → SideEffectCheckpoint → Result SideEffectCheckpoint
check_loaded id c = require (eqb c.schema_version 1 && (c.id == id && ltb 0 c.revision)) c

abbrev pub read_checkpoint : String → Option CheckpointFile → Result SideEffectCheckpoint
read_checkpoint id none = err (plain_error "ENOENT")
read_checkpoint id (some unreadable) = err (dokion_error ErrorCode.invalid_json)
read_checkpoint id (some (holds c)) = check_loaded id c

module _ (p : Runtime) where
  unfoldable pub require_date : Option String → Result String
  require_date value = let resolved = value or p.now in require (p.is_date resolved) resolved

  abbrev pub require_digest : Option String → Result String
  require_digest value = require_some p.is_digest value

  abbrev pub require_identifier : String → Result String
  require_identifier value = require (p.is_identifier value) value

  unfoldable pub load_checkpoint : String → Exec Files SideEffectCheckpoint
  unfolding ◌>>=◌
  load_checkpoint id = do
    lift (require (p.is_checkpoint_id id) tt)
    file ← gets (file_at id)
    lift (read_checkpoint id file)

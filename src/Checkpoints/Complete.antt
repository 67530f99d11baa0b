-- ===== src/Checkpoints/Complete.antt =====
-- state/checkpoint.ts: `completeSideEffect` and `recoverStartedSideEffects`.
use dokion.Base.{
  ◌+◌, String, Bool, true, false, not, ◌&&◌, List, [], ◌∷◌, ◌++◌, map, Option, none, some, ◌==◌,
  ◌or◌, every, keep, includes, sort, sorted_unique, if◌then◌else◌, Result, Exec, pure, lift, gets,
  ◌>>=◌, ◌>>◌,
}
use text.Mathlib.Text.{starts_with}
use dokion.Checkpoints.State.{
  SideEffectStatus, started, started_unknown, completed, failed, OutcomeStatus, outcome_completed,
  outcome_failed, SideEffectOutcome, SideEffectCheckpoint, Runtime, Files, write_checkpoint,
  require, require_date, require_digest, require_identifier, load_checkpoint,
}

-- the value of `normalizeOutcome`
pub record NormalizedOutcome : Type 0 where
  pub status : SideEffectStatus
  pub at : String
  pub result_digest : Option String
  pub evidence : List String
  pub error_code : Option String

abbrev pub same_text : Option String → Option String → Bool
same_text none none = true
same_text (some a) (some b) = a == b
same_text _ _ = false

-- two lists of texts have one `JSON.stringify`
abbrev pub same_texts : List String → List String → Bool
same_texts [] [] = true
same_texts (a ∷ rest) (b ∷ others) = a == b && same_texts rest others
same_texts _ _ = false

abbrev pub same_status : SideEffectStatus → SideEffectStatus → Bool
same_status started started = true
same_status started_unknown started_unknown = true
same_status completed completed = true
same_status failed failed = true
same_status _ _ = false

abbrev pub is_terminal : SideEffectStatus → Bool
is_terminal completed = true
is_terminal failed = true
is_terminal _ = false

abbrev pub is_started : SideEffectStatus → Bool
is_started started = true
is_started _ = false

abbrev pub terminal_matches : SideEffectCheckpoint → NormalizedOutcome → Bool
terminal_matches c o =
    same_status c.status o.status
    && same_text c.completed_at (some o.at)
    && same_text c.result_digest o.result_digest
    && same_text c.error_code o.error_code
    && same_texts c.evidence o.evidence

-- a list that is empty is not written, and a missing one is read as empty
abbrev pub evidence_after : List String → List String → List String
evidence_after old [] = old
evidence_after old new = new

-- a text that is missing or empty leaves the field as it was
abbrev pub written : Option String → Option String → Option String
written none old = old
written (some t) old = if t == "" then old else some t

abbrev pub completed_as : SideEffectCheckpoint → NormalizedOutcome → SideEffectCheckpoint
completed_as c o = record c {
  revision = c.revision + 1;
  status = o.status;
  completed_at = some o.at;
  result_digest = written o.result_digest c.result_digest;
  evidence = evidence_after c.evidence o.evidence;
  error_code = written o.error_code c.error_code;
}

abbrev pub observed_unknown : String → SideEffectCheckpoint → SideEffectCheckpoint
observed_unknown at c = record c {
  revision = c.revision + 1;
  status = started_unknown;
  recovery_observed_at = some at;
}

unfoldable pub write_outcome :
    String → SideEffectCheckpoint → NormalizedOutcome → Exec Files SideEffectCheckpoint
unfolding ◌>>=◌
write_outcome id c o = write_checkpoint id (completed_as c o) >> pure (completed_as c o)

unfoldable pub recover_current :
    String → String → SideEffectCheckpoint → Exec Files (List SideEffectCheckpoint)
unfolding ◌>>=◌
recover_current at id c =
    if is_started c.status
    then write_checkpoint id (observed_unknown at c) >> pure (observed_unknown at c ∷ [])
    else pure []

module _ (p : Runtime) where
  unfoldable pub normalized_evidence : List String → Result (List String)
  normalized_evidence evidence =
      let values = sorted_unique evidence in
      require
        (every
          (λ path. starts_with path ".dokion/evidence/" && not (includes ".." (p.split path "/")))
          values)
        values

  abbrev pub normalize_status : String → List String → OutcomeStatus → Exec Files NormalizedOutcome
  unfolding ◌>>=◌
  normalize_status at evidence (outcome_completed digest) = do
    result_digest ← lift (require_digest p digest)
    pure (record {
      status = completed;
      at = at;
      result_digest = some result_digest;
      evidence = evidence;
      error_code = none;
    })
  normalize_status at evidence (outcome_failed code) = do
    error_code ← lift (require_identifier p (code or ""))
    pure (record {
      status = failed;
      at = at;
      result_digest = none;
      evidence = evidence;
      error_code = some error_code;
    })

  unfoldable pub normalize_outcome : SideEffectOutcome → Exec Files NormalizedOutcome
  unfolding ◌>>=◌
  normalize_outcome o = do
    at ← lift (require_date p o.at)
    evidence ← lift (normalized_evidence o.evidence)
    normalize_status at evidence o.status

  -- The last guard of the source, on a status that is none of the four, never fires here.
  unfoldable pub complete_side_effect : String → SideEffectOutcome → Exec Files SideEffectCheckpoint
  unfolding ◌>>=◌
  complete_side_effect id input = do
    current ← load_checkpoint p id
    outcome ← normalize_outcome input
    if is_terminal current.status
        then lift (require (terminal_matches current outcome) current)
        else write_outcome id current outcome

  -- `sort` of names of one length: with or without their `.json`, the order is the same
  abbrev pub checkpoint_files : Files → List String
  checkpoint_files w = sort (keep p.is_checkpoint_id (map (λ e. e.0) w))

  unfoldable pub recover_each : String → List String → Exec Files (List SideEffectCheckpoint)
  unfolding ◌>>=◌
  recover_each at [] = pure []
  recover_each at (id ∷ ids) = do
    current ← load_checkpoint p id
    these ← recover_current at id current
    others ← recover_each at ids
    pure (these ++ others)

  unfoldable pub recover_started_side_effects :
      Option String → Exec Files (List SideEffectCheckpoint)
  unfolding ◌>>=◌
  recover_started_side_effects observed_at = do
    at ← lift (require_date p observed_at)
    ids ← gets checkpoint_files
    recover_each at ids

-- ===== src/Checkpoints/Begin.antt =====
-- state/checkpoint.ts: `beginSideEffect`, with the guard of invocation/replay-policy.ts on what it returns. A write of
-- `writeJsonAtomic` succeeds, so the branch of `beginSideEffect` on its failure is not modelled.
use dokion.Base.{
  String, not, ◌||◌, Option, none, some, ◌==◌, ◌⧺◌, [], ltb, includes, Result, ok, err, ErrorCode,
  dokion_error, Exec, pure, lift, gets, ◌>>=◌, ◌>>◌,
}
use text.Mathlib.Text.{starts_with}
use dokion.Model.Json.{str, obj, end, field}
use dokion.Checkpoints.State.{
  SideEffectKind, command, file_write, network, install, repair, other, SideEffectStatus, started,
  SideEffectIntent, SideEffectCheckpoint, Runtime, CheckpointFile, Files, file_at, write_checkpoint,
  require, require_date, require_digest, require_identifier, load_checkpoint,
}

abbrev pub kind_text : SideEffectKind → String
kind_text command = "COMMAND"
kind_text file_write = "FILE_WRITE"
kind_text network = "NETWORK"
kind_text install = "INSTALL"
kind_text repair = "REPAIR"
kind_text other = "OTHER"

pub record StableIntent : Type 0 where
  pub id : String
  pub intent_digest : String
  pub intent : SideEffectIntent
  pub run_id : String
  pub step_id : String
  pub subject : String
  pub parameters_digest : String
  pub started_at : String

abbrev pub new_checkpoint : StableIntent → SideEffectCheckpoint
new_checkpoint s = record {
  schema_version = 1;
  id = s.id;
  revision = 1;
  status = started;
  run_id = s.run_id;
  step_id = s.step_id;
  kind = s.intent.kind;
  subject = s.subject;
  intent_digest = s.intent_digest;
  parameters_digest = s.parameters_digest;
  started_at = s.started_at;
  recovery_observed_at = none;
  completed_at = none;
  result_digest = none;
  evidence = [];
  error_code = none;
}

module _ (p : Runtime) where
  abbrev pub require_subject : String → Result String
  require_subject value =
      let subject = p.trim value in
      let unsafe =
        subject == ""
        || ltb 256 (p.text_length subject)
        || starts_with subject "/"
        || p.text_includes subject "\\"
        || includes ".." (p.split subject "/")
        || p.has_control subject in
      require (not unsafe) subject

  abbrev pub canonical : String → String → SideEffectKind → String → String → String → String
  canonical run_id step_id kind subject key digest = p.stringify (
      obj (
        field "runId" (str run_id) (
          field "stepId" (str step_id) (
            field "kind" (str (kind_text kind)) (
              field "subject" (str subject)
                (field "idempotencyKey" (str key) (field "parametersDigest" (str digest) end)))))))

  abbrev checkpoint_id : String → String
  checkpoint_id digest = "side-effect-" ⧺ p.slice digest 7 39

  unfoldable pub stable_intent : SideEffectIntent → Exec Files StableIntent
  unfolding ◌>>=◌
  stable_intent i = do
    run_id ← lift (require_identifier p i.run_id)
    step_id ← lift (require_identifier p i.step_id)
    subject ← lift (require_subject i.subject)
    lift (require (not (p.trim i.idempotency_key == "")) tt)
    digest ← lift (require_digest p (some i.parameters_digest))
    at ← lift (require_date p i.started_at)
    let intent_digest = p.sha256 (canonical run_id step_id i.kind subject i.idempotency_key digest)
    pure (record {
      id = checkpoint_id intent_digest;
      intent_digest = intent_digest;
      intent = i;
      run_id = run_id;
      step_id = step_id;
      subject = subject;
      parameters_digest = digest;
      started_at = at;
    })

  unfoldable pub begin_at : StableIntent → Option CheckpointFile → Exec Files SideEffectCheckpoint
  unfolding ◌>>=◌
  begin_at s none = write_checkpoint s.id (new_checkpoint s) >> pure (new_checkpoint s)
  begin_at s (some f) = do
    existing ← load_checkpoint p s.id
    lift (require (existing.intent_digest == s.intent_digest) existing)

  unfoldable pub begin_side_effect : SideEffectIntent → Exec Files SideEffectCheckpoint
  unfolding ◌>>=◌
  begin_side_effect intent = do
    stable ← stable_intent intent
    lift (require (p.is_checkpoint_id stable.id) tt)
    file ← gets (file_at stable.id)
    begin_at stable file

abbrev pub replay_safe : SideEffectStatus → Result {0} Unit
replay_safe started = ok tt
replay_safe _ = err (dokion_error ErrorCode.invalid_state)

-- invocation/replay-policy.ts
unfoldable pub assert_invocation_replay_safe : SideEffectCheckpoint → Result {0} Unit
assert_invocation_replay_safe c = replay_safe c.status

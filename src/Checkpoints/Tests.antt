-- ===== src/Checkpoints/Tests.antt =====
-- state/checkpoint.ts on one project with an interrupted side effect.
use dokion.Base.{
  String, true, false, List, [], ◌∷◌, none, some, ◌⧺◌, ◌≡◌, refl, ok, err, ErrorCode, dokion_error,
  lift, ◌>>=◌,
}
use dokion.Model.Json.{Json, str, obj, get}
use dokion.Checkpoints.State.{
  command, started, SideEffectIntent, outcome_completed, SideEffectCheckpoint, Runtime, holds,
  Files, file_at, load_checkpoint, require_date,
}
use dokion.Checkpoints.Begin.{
  stable_intent, begin_at, begin_side_effect, assert_invocation_replay_safe,
}
use dokion.Checkpoints.Complete.{
  observed_unknown, recover_current, recover_each, recover_started_side_effects,
}
use dokion.Checkpoints.Later.{Later}
use dokion.Checkpoints.Resumed.{
  Call, completes, recovers, replay, replay-Later, recover_started_side_effects_lem,
}

abbrev key_text : Json → String
key_text (obj fs) = elim (get "idempotencyKey" fs) [ some (str k) ↦ k | _ ↦ "" ]
key_text _ = ""

-- an identity for SHA-256, of the text of the idempotency key
abbrev runtime : Runtime
runtime = record {
  now = "t0";
  is_date = λ s. true;
  is_digest = λ s. true;
  is_identifier = λ s. true;
  is_checkpoint_id = λ s. true;
  has_control = λ s. false;
  trim = λ s. s;
  text_length = λ s. 1;
  text_includes = λ s t. false;
  split = λ s t. s ∷ [];
  slice = λ s a b. s;
  stringify = key_text;
  sha256 = λ s. s;
}

abbrev intent : String → SideEffectIntent
intent key = record {
  run_id = "run-1";
  step_id = "step-1";
  kind = command;
  subject = "capability";
  idempotency_key = key;
  parameters_digest = "d";
  started_at = none;
}

abbrev checkpoint : String → SideEffectCheckpoint
checkpoint key = record {
  schema_version = 1;
  id = "side-effect-" ⧺ key;
  revision = 1;
  status = started;
  run_id = "run-1";
  step_id = "step-1";
  kind = command;
  subject = "capability";
  intent_digest = key;
  parameters_digest = "d";
  started_at = "t0";
  recovery_observed_at = none;
  completed_at = none;
  result_digest = none;
  evidence = [];
  error_code = none;
}

-- the files after one side effect was begun, and the process ended
abbrev interrupted : Files
interrupted = ("side-effect-a", holds (checkpoint "a")) ∷ []

interrupted_begun : begin_side_effect runtime (intent "a") [] ≡ (ok (checkpoint "a"), interrupted)
unfolding begin_side_effect begin_at stable_intent require_date ◌>>=◌
interrupted_begun = refl

abbrev unknown_effect : SideEffectCheckpoint
unknown_effect = observed_unknown "t0" (checkpoint "a")

abbrev resumed : Files
resumed = ("side-effect-a", holds unknown_effect) ∷ []

interrupted_recovered :
    recover_started_side_effects runtime none interrupted ≡ (ok (unknown_effect ∷ []), resumed)
unfolding ◌>>=◌ recover_started_side_effects recover_each recover_current load_checkpoint
    require_date
interrupted_recovered = refl

abbrev calls : List (Runtime × Call)
calls =
    (
      runtime,
      completes "side-effect-a"
          (record { status = outcome_completed (some "r"); at = none; evidence = [] }),
    )
    ∷ (runtime, recovers none)
    ∷ []

-- the interrupted side effect is not started again
not_again :
    (begin_side_effect runtime (intent "a") >>= λ c. lift (assert_invocation_replay_safe c)) resumed
    ≡ (err (dokion_error ErrorCode.invalid_state), resumed)
unfolding begin_side_effect begin_at stable_intent require_date ◌>>=◌ load_checkpoint
    assert_invocation_replay_safe
not_again = refl

replay-Later_example : Later interrupted (replay calls interrupted)
replay-Later_example = replay-Later calls interrupted

abbrev both : Files
both = ("side-effect-a", holds unknown_effect) ∷ ("side-effect-b", holds (checkpoint "b")) ∷ []

another_begun :
    begin_side_effect runtime (intent "b") (replay [] resumed) ≡ (ok (checkpoint "b"), both)
unfolding begin_side_effect begin_at stable_intent require_date ◌>>=◌ replay
another_begun = refl

recover_started_side_effects_lem_example : file_at "side-effect-b" interrupted ≡ none
unfolding assert_invocation_replay_safe
recover_started_side_effects_lem_example =
    recover_started_side_effects_lem runtime none interrupted resumed (unknown_effect ∷ [])
      interrupted_recovered [] "t0" (intent "b") (checkpoint "b") both another_begun refl

-- ===== src/Events/Signed.antt =====
-- state/event-chain.ts: what an event's digest is taken of leaves out no field of the event.
use dokion.Base.{◌≡◌, refl, sym, ap, ◌∙◌, String, Option, none, some, ◌==◌, if◌then◌else◌}
use dokion.Events.Digest.{
  Codec, DokionEventType, run_started, run_resumed, run_completed, step_started, step_succeeded,
  stage_inapplicable, step_inapplicable, approval_required, playbook_tainted, run_stale,
  step_failed, Unsigned, event_name, digest_json, unsigned_json,
}

event_named : String → Option DokionEventType
event_named t =
    if t == "RUN_STARTED"
    then some run_started
    else if t == "RUN_RESUMED"
    then some run_resumed
    else if t == "RUN_COMPLETED"
    then some run_completed
    else if t == "STEP_STARTED"
    then some step_started
    else if t == "STEP_SUCCEEDED"
    then some step_succeeded
    else if t == "STAGE_INAPPLICABLE"
    then some stage_inapplicable
    else if t == "STEP_INAPPLICABLE"
    then some step_inapplicable
    else if t == "APPROVAL_REQUIRED"
    then some approval_required
    else if t == "PLAYBOOK_TAINTED"
    then some playbook_tainted
    else if t == "RUN_STALE"
    then some run_stale
    else if t == "STEP_FAILED"
    then some step_failed
    else none

event_named-event_name : (e : DokionEventType) → event_named (event_name e) ≡ some e
unfolding event_named
event_named-event_name run_started = refl
event_named-event_name run_resumed = refl
event_named-event_name run_completed = refl
event_named-event_name step_started = refl
event_named-event_name step_succeeded = refl
event_named-event_name stage_inapplicable = refl
event_named-event_name step_inapplicable = refl
event_named-event_name approval_required = refl
event_named-event_name playbook_tainted = refl
event_named-event_name run_stale = refl
event_named-event_name step_failed = refl

event_name-injective : (d e : DokionEventType) → event_name d ≡ event_name e → d ≡ e
event_name-injective d e h =
    let same : some d ≡ some e =
      sym (event_named-event_name d) ∙ ap event_named h ∙ event_named-event_name e in
    cc

digest_json-injective : (a b : Option String) → digest_json a ≡ digest_json b → a ≡ b
digest_json-injective none none h = refl
digest_json-injective none (some b) h = cc
digest_json-injective (some a) none h = cc
digest_json-injective (some a) (some b) h = cc

pub unsigned_json-injective :
    (c : Codec) (e f : Unsigned)
    → (c.iso_time e.at ≡ c.iso_time f.at → e.at ≡ f.at)
    → unsigned_json c e ≡ unsigned_json c f
    → e ≡ f
unsigned_json-injective c e f times h =
    let sequence : e.sequence ≡ f.sequence = cc in
    let iso : c.iso_time e.at ≡ c.iso_time f.at = cc in
    let run_id : e.run_id ≡ f.run_id = cc in
    let actor_type : e.actor.type ≡ f.actor.type = cc in
    let actor_id : e.actor.id ≡ f.actor.id = cc in
    let name : event_name e.event ≡ event_name f.event = cc in
    let payload : e.payload ≡ f.payload = cc in
    let previous : digest_json e.previous_digest ≡ digest_json f.previous_digest = cc in
    λ k. record {
      input = record {
        at = times iso k;
        run_id = run_id k;
        actor = record { type = actor_type k; id = actor_id k };
        event = event_name-injective e.event f.event name k;
        payload = payload k;
      };
      sequence = sequence k;
      previous_digest = digest_json-injective e.previous_digest f.previous_digest previous k;
    }

-- ===== src/Events/Digest.antt =====
-- The events of state/event-log.ts, and the digest of state/event-chain.ts. What JavaScript's
-- runtime supplies (`JSON.stringify` on texts and numbers, the order of `Array.prototype.sort` on
-- keys, SHA-256, the text of a time) is the parameter `Codec`.
use dokion.Base.{
  ◌⧺◌, ℕ, String, Bool, true, false, List, [], ◌∷◌, Option, none, some, if◌then◌else◌,
}
use dokion.Model.Json.{Json, Items, Fields, null, bool, num, str, arr, obj, nil, cons, end, field}
use dokion.Model.State.{Time}

pub record Codec : Type 0 where
  pub quote : String → String
  pub number_text : ℕ → String
  pub before : String → String → Bool
  pub sha256 : String → String
  pub iso_time : Time → String

pub data DokionEventType : Type 0 where
  run_started run_resumed run_completed step_started step_succeeded : DokionEventType
  stage_inapplicable step_inapplicable approval_required : DokionEventType
  playbook_tainted run_stale step_failed : DokionEventType

pub record DokionEventActor : Type 0 where
  pub type : String
  pub id : String

-- `DokionEventInput`: what a caller of `appendEvent` supplies
pub record DokionEventInput : Type 0 where
  pub at : Time
  pub run_id : String
  pub actor : DokionEventActor
  pub event : DokionEventType
  pub payload : Fields

-- `Omit<DokionEvent, "digest">`; its constant `schema_version` 1 is written by `unsigned_json`
pub record Unsigned : Type 0 where
  pub input : DokionEventInput
  pub open input use *
  pub sequence : ℕ
  pub previous_digest : Option String

pub record DokionEvent : Type 0 where
  pub unsigned : Unsigned
  pub open unsigned use *
  pub digest : String

abbrev pub event_name : DokionEventType → String
event_name run_started = "RUN_STARTED"
event_name run_resumed = "RUN_RESUMED"
event_name run_completed = "RUN_COMPLETED"
event_name step_started = "STEP_STARTED"
event_name step_succeeded = "STEP_SUCCEEDED"
event_name stage_inapplicable = "STAGE_INAPPLICABLE"
event_name step_inapplicable = "STEP_INAPPLICABLE"
event_name approval_required = "APPROVAL_REQUIRED"
event_name playbook_tainted = "PLAYBOOK_TAINTED"
event_name run_stale = "RUN_STALE"
event_name step_failed = "STEP_FAILED"

-- `parts.join(",")`
abbrev join_comma : List String → String
join_comma [] = ""
join_comma (x ∷ []) = x
join_comma (x ∷ y ∷ xs) = x ⧺ "," ⧺ join_comma (y ∷ xs)

module _ (c : Codec) where
  -- insertion into the entries that are sorted by key
  abbrev insert_entry : String × String → List (String × String) → List (String × String)
  insert_entry e [] = e ∷ []
  insert_entry e (f ∷ fs) = if c.before f.0 e.0 then f ∷ insert_entry e fs else e ∷ f ∷ fs

  abbrev entry_texts : List (String × String) → List String
  entry_texts [] = []
  entry_texts ((k, v) ∷ es) = (c.quote k ⧺ ":" ⧺ v) ∷ entry_texts es

unfoldable mutual
  pub canonicalize : Codec → Json → String
  canonicalize c null = "null"
  canonicalize c (bool true) = "true"
  canonicalize c (bool false) = "false"
  canonicalize c (num n) = c.number_text n
  canonicalize c (str s) = c.quote s
  canonicalize c (arr xs) = "[" ⧺ join_comma (canonical_items c xs) ⧺ "]"
  canonicalize c (obj fs) = "{" ⧺ join_comma (entry_texts c (canonical_entries c fs)) ⧺ "}"

  pub canonical_items : Codec → Items → List String
  canonical_items c nil = []
  canonical_items c (cons x xs) = canonicalize c x ∷ canonical_items c xs

  pub canonical_entries : Codec → Fields → List (String × String)
  canonical_entries c end = []
  canonical_entries c (field k v fs) = insert_entry c (k, canonicalize c v) (canonical_entries c fs)

abbrev pub digest_json : Option String → Json
digest_json none = null
digest_json (some d) = str d

-- the object that `createChainedEvent` builds before it is signed
abbrev pub unsigned_json : Codec → Unsigned → Json
unsigned_json c e = obj (
    field "schema_version" (num 1) (
      field "sequence" (num e.sequence) (
        field "at" (str (c.iso_time e.at)) (
          field "run_id" (str e.run_id) (
            field "actor" (obj (field "type" (str e.actor.type) (field "id" (str e.actor.id) end)))
              (field "event" (str (event_name e.event)) (
                field "payload" (obj e.payload)
                  (field "previous_digest" (digest_json e.previous_digest) end))))))))

unfoldable pub calculate_event_digest : Codec → Unsigned → String
unfolding canonicalize
calculate_event_digest c e = c.sha256 (canonicalize c (unsigned_json c e))

unfoldable pub create_chained_event : Codec → DokionEventInput → ℕ → Option String → DokionEvent
create_chained_event c i sequence previous =
    let u : Unsigned = record { input = i; sequence = sequence; previous_digest = previous } in
    record { unsigned = u; digest = calculate_event_digest c u }

-- ===== src/Readiness/Statement.antt =====
-- readiness/readiness-statement.ts and readiness/promotion-signoff.ts: the statement that a release
-- is ready, and the record of its promotion. What JavaScript's texts, dates and digests answer is a
-- parameter.
use dokion.Base.{
  String, Bool, true, false, not, ◌&&◌, List, [], ◌∷◌, map, keep, is_empty, unique, Option, ◌⧺◌,
  if◌then◌else◌, Result, ok, err, ErrorCode, dokion_error, plain_error,
}
use dokion.Model.State.{ReleaseGateState, CoverageLaneState}
use dokion.Readiness.Criteria.{is_pass}
use dokion.Readiness.Coverage.{is_assigned}

pub data ReadinessStatus : Type 0 where
  not_ready conditionally_ready ready_for_staging ready_for_production : ReadinessStatus

pub record QualifiedReadinessInput : Type 0 where
  pub subject : String
  pub status : ReadinessStatus
  pub repository_commit : String
  pub playbook_digest : String
  pub capability_lock_digest : String
  pub gates : List ReleaseGateState
  pub coverage : List CoverageLaneState
  pub degradations : List String
  pub exclusions : List String
  pub evaluated_at : String

pub record QualifiedReadinessStatement : Type 0 where
  pub subject : String
  pub status : ReadinessStatus
  pub statement : String
  pub repository_commit : String
  pub playbook_digest : String
  pub capability_lock_digest : String
  pub evaluated_at : String
  pub blocking_gate_failures : List String
  pub uncovered_blocking_lanes : List String
  pub degradations : List String
  pub exclusions : List String

abbrev pub status_sentence : ReadinessStatus → String
status_sentence ready_for_production = "passed the user-configured production gates"
status_sentence ready_for_staging = "passed the user-configured staging gates"
status_sentence conditionally_ready = "is conditionally ready under the recorded limits"
status_sentence not_ready = "is NOT_READY for the user-configured gates"

abbrev pub claims_ready : ReadinessStatus → Bool
claims_ready ready_for_staging = true
claims_ready ready_for_production = true
claims_ready _ = false

-- ` No completion claim is active.`, of a run that is not ready
abbrev no_claim : ReadinessStatus → String
no_claim not_ready = " No completion claim is active."
no_claim _ = ""

abbrev join : List String → String
join [] = ""
join (x ∷ []) = x
join (x ∷ y ∷ ys) = x ⧺ ", " ⧺ join (y ∷ ys)

abbrev describe : List String → String
describe values = if is_empty values then "none" else join values

pub record Texts : Type 0 where
  -- `values.sort((l, r) => l.localeCompare(r))`
  pub sort : List String → List String
  -- `value.trim().length === 0`
  pub is_blank : String → Bool
  -- `/^sha(?:256|512):[a-f0-9]{64,128}$/i.test`
  pub is_digest : String → Bool
  -- `!Number.isNaN(Date.parse(value))`
  pub is_date : String → Bool

abbrev pub failing_gates : List ReleaseGateState → List ReleaseGateState
failing_gates gates = keep (λ g. g.blocking && not (is_pass g.status)) gates

abbrev pub uncovered_lanes : List CoverageLaneState → List CoverageLaneState
uncovered_lanes lanes = keep (λ l. l.blocking && not (is_assigned l.status)) lanes

module _ (t : Texts) (i : QualifiedReadinessInput) where
  abbrev sorted_unique : List String → List String
  sorted_unique values = t.sort (unique values)

  unfoldable pub has_identifiers : Bool
  has_identifiers =
      not (t.is_blank i.repository_commit)
      && (not (t.is_blank i.playbook_digest) && t.is_digest i.playbook_digest)
      && (not (t.is_blank i.capability_lock_digest) && t.is_digest i.capability_lock_digest)
      && (not (t.is_blank i.subject) && t.is_date i.evaluated_at)

  unfoldable pub blocking_gate_failures : List String
  blocking_gate_failures = sorted_unique (map (λ g. g.id) (failing_gates i.gates))

  unfoldable pub uncovered_blocking_lanes : List String
  uncovered_blocking_lanes = sorted_unique (map (λ l. l.lane) (uncovered_lanes i.coverage))

  abbrev statement_text : String
  statement_text =
      i.subject
      ⧺ " at commit "
      ⧺ i.repository_commit
      ⧺ " "
      ⧺ status_sentence i.status
      ⧺ " under playbook "
      ⧺ i.playbook_digest
      ⧺ " and capability lock "
      ⧺ i.capability_lock_digest
      ⧺ ", evaluated at "
      ⧺ i.evaluated_at
      ⧺ ". Blocking gate failures: "
      ⧺ describe blocking_gate_failures
      ⧺ ". Uncovered blocking lanes: "
      ⧺ describe uncovered_blocking_lanes
      ⧺ ". Degradations: "
      ⧺ describe (sorted_unique i.degradations)
      ⧺ ". Exclusions: "
      ⧺ describe (sorted_unique i.exclusions)
      ⧺ "."
      ⧺ no_claim i.status
      ⧺ " This is a scoped Dokion result, not a general security or production-readiness guarantee."

  abbrev pub statement : QualifiedReadinessStatement
  statement = record {
    subject = i.subject;
    status = i.status;
    statement = statement_text;
    repository_commit = i.repository_commit;
    playbook_digest = i.playbook_digest;
    capability_lock_digest = i.capability_lock_digest;
    evaluated_at = i.evaluated_at;
    blocking_gate_failures = blocking_gate_failures;
    uncovered_blocking_lanes = uncovered_blocking_lanes;
    degradations = sorted_unique i.degradations;
    exclusions = sorted_unique i.exclusions;
  }

  unfoldable pub format_readiness_statement : Result QualifiedReadinessStatement
  format_readiness_statement =
      if not has_identifiers
      then err (dokion_error ErrorCode.invalid_state)
      else if claims_ready i.status
          && not (is_empty blocking_gate_failures && is_empty uncovered_blocking_lanes)
      then err (dokion_error ErrorCode.invalid_state)
      else ok statement

pub data SignoffStatus : Type 0 where
  pass fail blocked : SignoffStatus

pub record GateResult : Type 0 where
  pub id : String
  pub status : SignoffStatus
  pub digest : Option String

pub record PromotionSignoffInput : Type 0 where
  pub version : String
  pub commit : String
  pub claimed_surfaces : List String
  pub playbook_digest : String
  pub lock_digest : String
  pub gates : List GateResult
  pub reviewer : String

-- `promotionReady` is `true` in every record, and `schemaVersion` is "1.0.0".
pub record PromotionSignoffRecord : Type 0 where
  pub version : String
  pub commit : String
  pub claimed_surfaces : List String
  pub playbook_digest : String
  pub lock_digest : String
  pub signoff_digest : String
  pub signed_at : String
  pub reviewer : String

abbrev pub did_pass : SignoffStatus → Bool
did_pass pass = true
did_pass _ = false

-- `sort` is `Array.prototype.sort`, which sorts the input's own list in place, and `sha256_json` is
-- the digest of `JSON.stringify` of the payload.
module _ (sort : List String → List String) (sha256_json : PromotionSignoffInput → String)
    (now : String) (i : PromotionSignoffInput) where
  abbrev pub signoff : PromotionSignoffRecord
  signoff =
      let surfaces = sort i.claimed_surfaces in
      record {
        version = i.version;
        commit = i.commit;
        claimed_surfaces = surfaces;
        playbook_digest = i.playbook_digest;
        lock_digest = i.lock_digest;
        signoff_digest = "sha256:" ⧺ sha256_json (record i { claimed_surfaces = surfaces });
        signed_at = now;
        reviewer = i.reviewer;
      }

  -- the first gate that did not pass ends the call
  abbrev pub signed_unless : List GateResult → Result PromotionSignoffRecord
  signed_unless [] = ok signoff
  signed_unless (gate ∷ _) = err (
      plain_error
        ("Cannot generate promotion sign-off: promotion gate " ⧺ gate.id ⧺ " did not pass"))

  unfoldable pub generate_promotion_signoff_record : Result PromotionSignoffRecord
  generate_promotion_signoff_record = signed_unless (keep (λ g. not (did_pass g.status)) i.gates)

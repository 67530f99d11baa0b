-- ===== src/Events/Journal.antt =====
-- `inspectEventChain`, `readVerifiedEvents`, `writeEventChainHead` of state/event-chain.ts and
-- `appendEvent` of state/event-log.ts, over the two files that they read and write. A line of the
-- journal is text that is no JSON, JSON that the event schema refuses, or an event.
use dokion.Base.{
  ℕ, ◌+◌, max, String, Bool, true, false, not, ◌&&◌, ◌||◌, List, [], ◌∷◌, ◌++◌, Option, none, some,
  ◌==◌, eqb, ltb, if◌then◌else◌, map_option, is_empty, length, last, Result, ok, err, ErrorCode,
  dokion_error,
}
use dokion.Model.State.{Time}
use dokion.Events.Digest.{
  Codec, DokionEventInput, DokionEvent, calculate_event_digest, create_chained_event,
}

pub data Line : Type 0 where
  bad_json off_schema : Line
  entry : DokionEvent → Line

pub record EventChainHead : Type 0 where
  pub event_count : ℕ
  pub tail_digest : Option String
  pub updated_at : Time

-- The head file: absent, unreadable or refused by `isValidHead`, or a head.
pub data HeadFile : Type 0 where
  missing invalid_head : HeadFile
  head : EventChainHead → HeadFile

pub record EventLog : Type 0 where
  pub journal : List Line
  pub head_file : HeadFile

pub data EventChainFailureReason : Type 0 where
  invalid_json schema_invalid sequence_mismatch previous_digest_mismatch digest_mismatch :
      EventChainFailureReason
  head_missing head_invalid journal_truncated head_mismatch : EventChainFailureReason

pub record EventChainFailure : Type 0 where
  pub reason : EventChainFailureReason
  pub journal_index : ℕ

pub data EventChainInspection : Type 0 where
  invalid : List DokionEvent → Option String → EventChainFailure → EventChainInspection
  valid : List DokionEvent → Option String → EventChainInspection

abbrev pub opt_eq : Option String → Option String → Bool
opt_eq none none = true
opt_eq (some a) (some b) = a == b
opt_eq _ _ = false

-- `lastSequenceByRun`: the newest entry of a run stands first
abbrev pub Sequences : Type 0
Sequences = List (String × ℕ)

abbrev pub sequence_of : String → Sequences → ℕ
sequence_of run [] = 0
sequence_of run ((r, n) ∷ m) = if r == run then n else sequence_of run m

-- the variables of the loop over the lines
pub record Scan : Type 0 where
  pub events : List DokionEvent
  pub last_sequence_by_run : Sequences
  pub previous_digest : Option String
  pub previous_event : Option DokionEvent

abbrev pub start : Scan
start = record {
  events = [];
  last_sequence_by_run = [];
  previous_digest = none;
  previous_event = none;
}

pub data Checked : Type 0 where
  bad : EventChainFailureReason → Checked
  good : Scan → Checked

abbrev other_run : Option DokionEvent → DokionEvent → Bool
other_run none e = false
other_run (some p) e = not (p.run_id == e.run_id)

abbrev pub accept : Scan → DokionEvent → Scan
accept s e = record {
  events = s.events ++ e ∷ [];
  last_sequence_by_run = (e.run_id, e.sequence) ∷ s.last_sequence_by_run;
  previous_digest = some e.digest;
  previous_event = some e;
}

-- the checks on one event, in the order of the loop's body
unfoldable pub check_event : Codec → Scan → DokionEvent → Checked
check_event c s e =
    let expected_sequence = sequence_of e.run_id s.last_sequence_by_run + 1 in
    let wrong_previous = not (opt_eq e.previous_digest s.previous_digest) in
    let wrong_sequence = not (eqb e.sequence expected_sequence) in
    if wrong_previous && other_run s.previous_event e
    then bad previous_digest_mismatch
    else if wrong_sequence
    then bad sequence_mismatch
    else if wrong_previous
    then bad previous_digest_mismatch
    else if not (e.digest == calculate_event_digest c e.unsigned)
    then bad digest_mismatch
    else good (accept s e)

unfoldable pub check_line : Codec → Scan → Line → Checked
unfolding check_event
check_line c s bad_json = bad invalid_json
check_line c s off_schema = bad schema_invalid
check_line c s (entry e) = check_event c s e

pub data Scanned : Type 0 where
  stopped : List DokionEvent → Option String → EventChainFailure → Scanned
  finished : Scan → Scanned

-- the loop over the lines, from the line of the given number
unfoldable pub scan : Codec → ℕ → Scan → List Line → Scanned
scan c index s [] = finished s
scan c index s (l ∷ ls) = elim (check_line c s l) [
  | bad reason ↦
      stopped s.events s.previous_digest (record { reason = reason; journal_index = index })
  | good s' ↦ scan c (index + 1) s' ls
]

-- the checks on the head file, after the loop
unfoldable pub check_head : HeadFile → Scan → EventChainInspection
check_head missing s =
    if is_empty s.events
    then valid [] none
    else invalid s.events s.previous_digest
        (record { reason = head_missing; journal_index = length s.events + 1 })
check_head invalid_head s =
    invalid s.events s.previous_digest
      (record { reason = head_invalid; journal_index = length s.events + 1 })
check_head (head h) s =
    if ltb (length s.events) h.event_count
    then invalid s.events s.previous_digest
        (record { reason = journal_truncated; journal_index = length s.events + 1 })
    else if not (eqb h.event_count (length s.events))
        || not (opt_eq h.tail_digest s.previous_digest)
    then invalid s.events s.previous_digest
        (record { reason = head_mismatch; journal_index = length s.events + 1 })
    else valid s.events s.previous_digest

abbrev pub conclude : HeadFile → Scanned → EventChainInspection
conclude h (stopped events tail failure) = invalid events tail failure
conclude h (finished s) = check_head h s

unfoldable pub inspect_event_chain : Codec → EventLog → EventChainInspection
inspect_event_chain c log = conclude log.head_file (scan c 1 start log.journal)

abbrev pub verified : EventChainInspection → Result (List DokionEvent)
verified (invalid events tail failure) = err (dokion_error ErrorCode.invalid_event)
verified (valid events tail) = ok events

unfoldable pub read_verified_events : Codec → EventLog → Result (List DokionEvent)
unfolding inspect_event_chain
read_verified_events c log = verified (inspect_event_chain c log)

abbrev pub tail_of : List DokionEvent → Option String
tail_of events = map_option (λ e. e.digest) (last events)

unfoldable pub write_event_chain_head : List DokionEvent → Time → EventChainHead
write_event_chain_head events now = record {
  event_count = length events;
  tail_digest = tail_of events;
  updated_at = now;
}

-- `Math.max(0, ...existing.filter(of the run).map(sequence))`
unfoldable pub max_in : String → DokionEvent → ℕ → ℕ
max_in run e n = if e.run_id == run then max e.sequence n else n

unfoldable pub max_sequence : String → List DokionEvent → ℕ
unfolding max_in
max_sequence run [] = 0
max_sequence run (e ∷ es) = max_in run e (max_sequence run es)

module _ (c : Codec) (valid_event : DokionEvent → Bool) (i : DokionEventInput) (now : Time)
    (log : EventLog) where
  abbrev pub next_event : List DokionEvent → DokionEvent
  next_event existing =
      create_chained_event c i (max_sequence i.run_id existing + 1) (tail_of existing)

  abbrev pub store_event : List DokionEvent → DokionEvent → EventLog
  store_event existing event = record {
    journal = log.journal ++ entry event ∷ [];
    head_file = head (write_event_chain_head (existing ++ event ∷ []) now);
  }

  abbrev pub append_verified : Result (List DokionEvent) → Result DokionEvent × EventLog
  append_verified (err fault) = (err fault, log)
  append_verified (ok existing) =
      let event = next_event existing in
      if valid_event event
      then (ok event, store_event existing event)
      else (err (dokion_error ErrorCode.invalid_event), log)

  unfoldable pub append_event : Result DokionEvent × EventLog
  unfolding read_verified_events
  append_event = append_verified (read_verified_events c log)

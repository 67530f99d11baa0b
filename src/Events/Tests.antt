-- ===== src/Events/Tests.antt =====
-- Tests of the event chain on a journal of two events.
use dokion.Base.{
  ◌≡◌, refl, sym, [], ◌∷◌, ◌++◌, Option, ok, err, ErrorCode, dokion_error, ◌⊎◌, false, true, ◌≢◌,
  ◌∙◌, eq_iff, ◌==◌, length, String,
}
use dokion.Events.Digest.{DokionEvent, canonicalize, calculate_event_digest}
use dokion.Events.Journal.{
  EventLog, entry, next_event, append_event, read_verified_events, inspect_event_chain, check_line,
  scan, check_head, EventChainFailure, invalid, journal_truncated,
}
use dokion.Events.Sequence.{sequences, of_run, counting}
use dokion.Events.Append.{append_event_lem}
use dokion.Events.Tamper.{
  Apart, signed_text, journal-determined, sequences_lem, inspect_truncated, append_event-truncated,
}
use dokion.Events.Samples.{plain_codec, any_event, first, second, two_events, truncated, next_input}

two_events-verified : read_verified_events plain_codec two_events ≡ ok (first ∷ second ∷ [])
unfolding read_verified_events check_line scan check_head calculate_event_digest
two_events-verified = refl

truncated-unverified :
    read_verified_events plain_codec truncated ≡ err (dokion_error ErrorCode.invalid_event)
unfolding read_verified_events check_line scan check_head calculate_event_digest
truncated-unverified = refl

append_event_example :
    ((append_event plain_codec any_event next_input 4 two_events
        ≡ (err (dokion_error ErrorCode.invalid_event), two_events))
      × (any_event (next_event plain_codec any_event next_input 4 two_events (first ∷ second ∷ []))
          ≡ false))
    ⊎ ((e : DokionEvent) × (log' : EventLog) × (append_event plain_codec any_event next_input 4
            two_events
          ≡ (ok e, log'))
        × (log'.journal ≡ two_events.journal ++ entry e ∷ [])
        × (read_verified_events plain_codec log' ≡ ok ((first ∷ second ∷ []) ++ e ∷ [])))
append_event_example =
    append_event_lem plain_codec any_event next_input 4 two_events (first ∷ second ∷ [])
      two_events-verified

append_event-truncated_example :
    append_event plain_codec any_event next_input 4 truncated
    ≡ (err (dokion_error ErrorCode.invalid_event), truncated)
append_event-truncated_example =
    append_event-truncated plain_codec any_event next_input 4 two_events _ (first ∷ [])
      (second ∷ []) refl two_events-verified (λ e. cc)

sequences_example :
    sequences "a" (first ∷ second ∷ []) ≡ counting 1 (length (of_run "a" (first ∷ second ∷ [])))
sequences_example =
    sequences_lem plain_codec two_events (first ∷ second ∷ []) "a" two_events-verified

inspect_truncated_example :
    (tail : Option String) × (f : EventChainFailure) × (inspect_event_chain plain_codec truncated
      ≡ invalid (first ∷ []) tail f)
    × (f.reason ≡ journal_truncated)
inspect_truncated_example =
    inspect_truncated plain_codec two_events _ (first ∷ []) (second ∷ []) refl two_events-verified
      (λ e. cc)

texts-differ : (signed_text plain_codec first == signed_text plain_codec second) ≡ false
unfolding canonicalize calculate_event_digest
texts-differ = refl

true-ne-false : true ≢ false
true-ne-false e = cc

no_same_text : signed_text plain_codec first ≢ signed_text plain_codec second
no_same_text e = absurd (
    true-ne-false (
      sym ((eq_iff (signed_text plain_codec first) (signed_text plain_codec second)).1 e)
      ∙ texts-differ))

itself_Apart : (e : DokionEvent) → Apart plain_codec e e
itself_Apart e = record { hash = λ h. refl; canonical = λ h. refl; time = λ h. refl }

journal-determined_example : first ∷ second ∷ [] ≡ first ∷ second ∷ []
journal-determined_example =
    journal-determined plain_codec two_events two_events (first ∷ second ∷ []) (first ∷ second ∷ [])
      two_events-verified two_events-verified refl
      (
        (
          itself_Apart first,
          (
            record { hash = λ h. h; canonical = λ h. absurd (no_same_text h); time = λ h. refl },
            tt,
          ),
        ),
        (
          (
            record {
              hash = λ h. h;
              canonical = λ h. absurd (no_same_text (sym h));
              time = λ h. refl;
            },
            (itself_Apart second, tt),
          ),
          tt,
        ),
      )

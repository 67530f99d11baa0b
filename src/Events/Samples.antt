-- ===== src/Events/Samples.antt =====
-- A small codec and a journal of two runs, for the tests of the event chain.
use dokion.Base.{ℕ, String, Bool, true, false, [], ◌∷◌, none, some, eqb, if◌then◌else◌}
use dokion.Model.Json.{end}
use dokion.Events.Digest.{
  Codec, DokionEventInput, DokionEventType, run_started, step_started, DokionEvent, Unsigned,
  calculate_event_digest,
}
use dokion.Events.Journal.{EventLog, entry, head}

abbrev digit : ℕ → String
digit n = if eqb n 1 then "1" else if eqb n 2 then "2" else "n"

abbrev pub plain_codec : Codec
plain_codec = record {
  quote = λ s. s;
  number_text = digit;
  before = λ a b. false;
  sha256 = λ s. s;
  iso_time = λ t. "t";
}

abbrev pub any_event : DokionEvent → Bool
any_event e = true

abbrev pub input : String → DokionEventType → DokionEventInput
input run event = record {
  at = 0;
  run_id = run;
  actor = record { type = "runtime"; id = "dokion-runtime" };
  event = event;
  payload = end;
}

abbrev signed : Unsigned → DokionEvent
signed u = record { unsigned = u; digest = calculate_event_digest plain_codec u }

abbrev pub first : DokionEvent
first = signed (record { input = input "a" run_started; sequence = 1; previous_digest = none })

abbrev pub second : DokionEvent
second =
    signed
      (record { input = input "b" run_started; sequence = 1; previous_digest = some first.digest })

abbrev pub two_events : EventLog
two_events = record {
  journal = entry first ∷ entry second ∷ [];
  head_file = head (record { event_count = 2; tail_digest = some second.digest; updated_at = 3 });
}

-- the journal without its last line, under the head of both
abbrev pub truncated : EventLog
truncated = record two_events { journal = entry first ∷ [] }

abbrev pub next_input : DokionEventInput
next_input = input "a" step_started

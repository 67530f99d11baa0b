-- ===== src/Events/Append.antt =====
-- `appendEvent` of state/event-log.ts and the verification of what it leaves.
use dokion.Base.{
  ℕ, ◌+◌, ◌≡◌, refl, sym, ap, ◌∙◌, ◌⊎◌, Bool, true, false, List, [], ◌∷◌, ◌++◌, Option, String,
  none, some, inl, inr, Bool-cases, arith, length, subst, ErrorCode, ok, err, dokion_error,
  is_empty,
}
use mathlib.Core.List.{map-append}
use dokion.Model.State.{Time}
use dokion.Events.Digest.{Codec, DokionEvent, DokionEventInput, create_chained_event}
use dokion.Events.Journal.{
  Line, entry, EventLog, HeadFile, missing, invalid_head, head, EventChainHead, EventChainFailure,
  EventChainInspection, invalid, valid, Scan, start, Scanned, stopped, finished, scan, check_head,
  inspect_event_chain, verified, read_verified_events, tail_of, max_sequence,
  write_event_chain_head, next_event, store_event, append_event,
}
use dokion.Events.Order.{
  Follows, Extends, absorb, entries, scan-eq-finished, scan-entries, events-absorb, Extends-append,
  previous_digest-absorb, opt_eq_refl, opt_eq-eq,
}
use dokion.Events.Sequence.{max_sequence-absorb}

Scanned-cases :
    (r : Scanned)
    → ((events : List DokionEvent) × (tail : Option String) × (f : EventChainFailure) × (r
          ≡ stopped events tail f))
      ⊎ ((s : Scan) × (r ≡ finished s))
Scanned-cases (stopped events tail f) = inl (events, tail, f, refl)
Scanned-cases (finished s) = inr (s, refl)

-- What the head file says of the events: none without it, else their number and last digest.
abbrev pub Heads : HeadFile → List DokionEvent → Option String → Type 0
Heads missing events tail = (events ≡ []) × (tail ≡ none)
Heads invalid_head events tail = ⊥
Heads (head h) events tail = (h.event_count ≡ length events) × (h.tail_digest ≡ tail)

is_empty-eq {ℓ} : {A : Type ℓ} (xs : List A) → is_empty xs ≡ true → xs ≡ []
is_empty-eq [] h = refl
is_empty-eq (x ∷ xs) h = cc

valid-events :
    {es fs : List DokionEvent} {t u : Option String} → valid es t ≡ valid fs u → (es ≡ fs) × (t ≡ u)
valid-events h = (cc, cc)

check_head-eq-valid :
    (h : HeadFile) (s : Scan) (events : List DokionEvent) (tail : Option String)
    → check_head h s ≡ valid events tail
    → (s.events ≡ events) × Heads h events tail
unfolding check_head
check_head-eq-valid missing s events tail e = ground (arith, is_empty-eq s.events)
check_head-eq-valid invalid_head s events tail e = cc
check_head-eq-valid (head h) s events tail e =
    ground (arith, opt_eq-eq h.tail_digest s.previous_digest)

check_head-tail :
    (h : HeadFile) (s : Scan) (events : List DokionEvent) (tail : Option String)
    → check_head h s ≡ valid events tail
    → tail_of s.events ≡ s.previous_digest
    → tail ≡ tail_of events
unfolding check_head
check_head-tail missing s events tail e t = ground arith
check_head-tail invalid_head s events tail e t = cc
check_head-tail (head h) s events tail e t = ground (arith, t)

check_head_of :
    (h : EventChainHead) (s : Scan)
    → h.event_count ≡ length s.events
    → h.tail_digest ≡ s.previous_digest
    → check_head (head h) s ≡ valid s.events s.previous_digest
unfolding check_head
check_head_of h s n t = ground (arith, n, t, opt_eq_refl s.previous_digest)

module _ (c : Codec) where
  -- What a successful inspection has established.
  pub inspect-eq-valid :
      (log : EventLog) (events : List DokionEvent) (tail : Option String)
      → inspect_event_chain c log ≡ valid events tail
      → (log.journal ≡ entries events) × Extends c start events × Heads log.head_file events tail
  unfolding inspect_event_chain
  inspect-eq-valid log events tail h = elim (Scanned-cases (scan c 1 start log.journal)) [
    | inl (es, t, f, e) ↦ let bad = rw e at h in cc
    | inr (s, e) ↦
        let (same, heads) = check_head-eq-valid log.head_file s events tail (rw e at h) in
        let (es, lines, final, extends) = scan-eq-finished c 1 start s log.journal e in
        let eq : es ≡ events =
          sym (events-absorb start es) ∙ ap (λ t. t.events) (sym final) ∙ same in
        (lines ∙ ap entries eq, subst (Extends c start) eq extends, heads)
  ]

  pub inspect-tail :
      (log : EventLog) (events : List DokionEvent) (tail : Option String)
      → inspect_event_chain c log ≡ valid events tail
      → tail ≡ tail_of events
  unfolding inspect_event_chain
  inspect-tail log events tail h = elim (Scanned-cases (scan c 1 start log.journal)) [
    | inl (es, t, f, e) ↦ let bad = rw e at h in cc
    | inr (s, e) ↦
        let (es, lines, final, extends) = scan-eq-finished c 1 start s log.journal e in
        check_head-tail log.head_file s events tail (rw e at h)
          (rw final (ap tail_of (events-absorb start es) ∙ previous_digest-absorb start es refl))
  ]

  -- and conversely, with a head that names the number of events and the last digest
  pub inspect_of_Extends :
      (events : List DokionEvent) (h : EventChainHead)
      → Extends c start events
      → h.event_count ≡ length events
      → h.tail_digest ≡ tail_of events
      → inspect_event_chain c (record { journal = entries events; head_file = head h })
        ≡ valid events (tail_of events)
  unfolding inspect_event_chain
  inspect_of_Extends events h x n t =
      let same = events-absorb start events in
      let tail = previous_digest-absorb start events refl in
      rw (scan-entries c 1 start events x) (
        check_head_of h (absorb start events) (n ∙ ap length (sym same)) (t ∙ tail)
        ∙ cc (same, tail))

pub verified-eq-ok :
    (i : EventChainInspection) {events : List DokionEvent}
    → verified i ≡ ok events
    → (tail : Option String) × (i ≡ valid events tail)
verified-eq-ok (invalid es t f) h = cc
verified-eq-ok (valid es t) h = (t, cc)

last_snoc : (xs : List DokionEvent) (x : DokionEvent) → tail_of (xs ++ x ∷ []) ≡ some x.digest
last_snoc [] x = refl
last_snoc (y ∷ []) x = refl
last_snoc (y ∷ z ∷ xs) x = last_snoc (z ∷ xs) x

module _ (c : Codec) (valid_event : DokionEvent → Bool) (i : DokionEventInput) (now : Time)
    (log : EventLog) where
  next_event-Follows :
      (existing : List DokionEvent)
      → Extends c start existing
      → Follows c (absorb start existing) (next_event c valid_event i now log existing)
  unfolding create_chained_event
  next_event-Follows existing x =
      let same = events-absorb start existing in
      let top = max_sequence-absorb c i.run_id start existing x (unfold max_sequence in refl) in
      (
        previous_digest-absorb start existing refl,
        ap (λ (n : ℕ). n + 1) (ap (max_sequence i.run_id) (sym same) ∙ top),
        refl,
      )

  abbrev stored : List DokionEvent → DokionEvent → EventLog
  stored = store_event c valid_event i now log

  abbrev next : List DokionEvent → DokionEvent
  next = next_event c valid_event i now log

  store_event-verified :
      (existing : List DokionEvent)
      → read_verified_events c log ≡ ok existing
      → read_verified_events c (stored existing (next existing))
        ≡ ok (existing ++ next existing ∷ [])
  unfolding read_verified_events write_event_chain_head
  store_event-verified existing h =
      let (tail, inspected) = verified-eq-ok (inspect_event_chain c log) h in
      let (lines, extends, heads) = inspect-eq-valid c log existing tail inspected in
      let longer =
        Extends-append c start existing (next existing ∷ []) extends
          (next_event-Follows existing extends, tt) in
      let journal =
        ap (λ (ls : List Line). ls ++ entry (next existing) ∷ []) lines
        ∙ sym (map-append entry existing (next existing ∷ [])) in
      ap verified (
        ap
          (λ (ls : List Line). inspect_event_chain c (record {
            journal = ls;
            head_file = head (write_event_chain_head (existing ++ next existing ∷ []) now);
          }))
          journal
        ∙ inspect_of_Extends c (existing ++ next existing ∷ []) _ longer refl refl)

  -- Both outcomes of an append to a verified journal. If the event schema refuses the new event,
  -- the call throws INVALID_EVENT and both files stay as they were. Otherwise the journal has one
  -- line more, at its end, and with the new head it is verified again, as the old events and the
  -- new one.
  pub append_event_lem :
      (existing : List DokionEvent)
      → read_verified_events c log ≡ ok existing
      → ((append_event c valid_event i now log ≡ (err (dokion_error ErrorCode.invalid_event), log))
          × (valid_event (next existing) ≡ false))
        ⊎ ((e : DokionEvent) × (log' : EventLog) × (append_event c valid_event i now log
              ≡ (ok e, log'))
            × (log'.journal ≡ log.journal ++ entry e ∷ [])
            × (read_verified_events c log' ≡ ok (existing ++ e ∷ [])))
  unfolding append_event
  append_event_lem existing h = elim (Bool-cases (valid_event (next existing))) [
    | inl fits ↦ inr (
      next existing,
      stored existing (next existing),
      rw h (rw fits),
      refl,
      store_event-verified existing h,
    )
    | inr refused ↦ inl (rw h (rw refused), refused)
  ]

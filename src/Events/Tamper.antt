-- ===== src/Events/Tamper.antt =====
-- state/event-chain.ts: journals that were changed behind the back of their head file.
use dokion.Base.{
  ◌+◌, ◌<◌, ◌≡◌, ◌≢◌, refl, sym, ap, ◌∙◌, List, [], ◌∷◌, ◌++◌, Option, some, String, arith, length,
  length-append, length_pos, ok, err, dokion_error, ErrorCode, Bool, All, subst,
}
use dokion.Model.State.{Time}
use dokion.Events.Digest.{
  Codec, DokionEvent, DokionEventInput, canonicalize, unsigned_json, calculate_event_digest,
}
use dokion.Events.Journal.{
  EventLog, HeadFile, missing, invalid_head, head, EventChainHead, invalid, journal_truncated,
  EventChainFailure, Scan, start, accept, inspect_event_chain, check_head, read_verified_events,
  append_event,
}
use dokion.Events.Order.{
  Follows, Extends, absorb, entries, previous_digest-absorb, scan-entries, events-absorb,
}
use dokion.Events.Append.{Heads, inspect-eq-valid, verified-eq-ok, inspect-tail}
use dokion.Events.Signed.{unsigned_json-injective}
use dokion.Events.Sequence.{sequences, counting, of_run, sequences_of_Extends}

-- what is hashed for an event
abbrev pub signed_text : Codec → DokionEvent → String
signed_text c e = canonicalize c (unsigned_json c e.unsigned)

-- Of two events, none of the three texts that are made of them on the way to their digests collides: SHA-256 of
-- what is hashed, the canonical text of their objects, and the ISO text of their times.
pub record Apart (c : Codec) (e f : DokionEvent) : Type 0 where
  pub hash :
      c.sha256 (signed_text c e) ≡ c.sha256 (signed_text c f) → signed_text c e ≡ signed_text c f
  pub canonical :
      signed_text c e ≡ signed_text c f → unsigned_json c e.unsigned ≡ unsigned_json c f.unsigned
  pub time : c.iso_time e.at ≡ c.iso_time f.at → e.at ≡ f.at

abbrev pub NoCollision : Codec → List DokionEvent → List DokionEvent → Type 0
NoCollision c es fs = All (λ e. All (Apart c e) fs) es

All-tail {ℓ κ} :
    {A : Type ℓ} (P : A → A → Type κ) (es : List A) (f : A) (fs : List A)
    → All (λ e. All (P e) (f ∷ fs)) es
    → All (λ e. All (P e) fs) es
All-tail P [] f fs h = tt
All-tail P (e ∷ es) f fs (h, k) = (h.1, All-tail P es f fs k)

module _ (c : Codec) where
  same_event :
      (e f : DokionEvent) (s t : Scan)
      → Follows c s e
      → Follows c t f
      → Apart c e f
      → some e.digest ≡ some f.digest
      → e ≡ f
  unfolding calculate_event_digest
  same_event e f s t (p, q, d) (p', q', d') apart same =
      let digests : e.digest ≡ f.digest = cc in
      let bodies =
        unsigned_json-injective c e.unsigned f.unsigned apart.time
          (apart.canonical (apart.hash (sym d ∙ digests ∙ d'))) in
      λ k. record { unsigned = bodies k; digest = digests k }

  same_events :
      (s t : Scan) (es fs : List DokionEvent)
      → Extends c s es
      → Extends c t fs
      → length es ≡ length fs
      → (absorb s es).previous_digest ≡ (absorb t fs).previous_digest
      → NoCollision c es fs
      → (es ≡ fs) × (s.previous_digest ≡ t.previous_digest)
  same_events s t [] [] x y n h a = (refl, h)
  same_events s t [] (f ∷ fs) x y n h a = absurd (omega arith)
  same_events s t (e ∷ es) [] x y n h a = absurd (omega arith)
  same_events s t (e ∷ es) (f ∷ fs) (x, xs) (y, ys) n h (a, as') =
      let (rest, last) =
        same_events (accept s e) (accept t f) es fs xs ys (omega arith) h
          (All-tail _ es f fs as') in
      let first = same_event e f s t x y a.0 last in (cc (first, rest), cc (x.0, y.0, first))

  -- what a verified log says, in one place
  read_facts :
      (log : EventLog) (events : List DokionEvent)
      → read_verified_events c log ≡ ok events
      → (log.journal ≡ entries events)
        × Extends c start events
        × Heads log.head_file events (absorb start events).previous_digest
  unfolding read_verified_events
  read_facts log events h =
      let (tail, inspected) = verified-eq-ok (inspect_event_chain c log) h in
      let (lines, extends, heads) = inspect-eq-valid c log events tail inspected in
      let same =
        inspect-tail c log events tail inspected ∙ previous_digest-absorb start events refl in
      (lines, extends, subst (Heads log.head_file events) same heads)

  same_chain :
      (h : HeadFile) (es fs : List DokionEvent)
      → Extends c start es
      → Extends c start fs
      → Heads h es (absorb start es).previous_digest
      → Heads h fs (absorb start fs).previous_digest
      → NoCollision c es fs
      → es ≡ fs
  same_chain missing es fs x y (e, t) (f, u) apart = e ∙ sym f
  same_chain invalid_head es fs x y h k apart = absurd h
  same_chain (head h) es fs x y (n, t) (m, u) apart =
      (same_events start start es fs x y (sym n ∙ m) (sym t ∙ u) apart).0

  -- The events of a journal cannot be edited, reordered, cut or extended behind the back of the head
  -- file: if two logs verify and have the same head file, then they have the same events in the same order. This
  -- is so where no two of the events have different times with one ISO text, different objects with one canonical
  -- text, or different canonical texts with one SHA-256. Spacing and the order of keys in the
  -- lines are not part of the events.
  pub journal-determined :
      (a b : EventLog) (es fs : List DokionEvent)
      → read_verified_events c a ≡ ok es
      → read_verified_events c b ≡ ok fs
      → a.head_file ≡ b.head_file
      → NoCollision c es fs
      → es ≡ fs
  journal-determined a b es fs h k heads apart =
      let (lines, x, t) = read_facts a es h in
      let (lines', y, u) = read_facts b fs k in
      same_chain b.head_file es fs x y
        (subst (λ f. Heads f es (absorb start es).previous_digest) heads t) u apart

  -- In a verified journal the sequence numbers of each run are 1, 2, 3 and so on, in the order of
  -- the lines, whatever events of other runs stand between them.
  pub sequences_lem :
      (log : EventLog) (events : List DokionEvent) (run : String)
      → read_verified_events c log ≡ ok events
      → sequences run events ≡ counting 1 (length (of_run run events))
  sequences_lem log events run h =
      sequences_of_Extends c run start events (read_facts log events h).1

  Extends-prefix : (s : Scan) (es fs : List DokionEvent) → Extends c s (es ++ fs) → Extends c s es
  Extends-prefix s [] fs h = tt
  Extends-prefix s (e ∷ es) fs (f, h) = (f, Extends-prefix (accept s e) es fs h)

  check_head_short :
      (h : EventChainHead) (s : Scan)
      → length s.events < h.event_count
      → (f : EventChainFailure) × (check_head (head h) s ≡ invalid s.events s.previous_digest f)
        × (f.reason ≡ journal_truncated)
  unfolding check_head
  check_head_short h s n = (
    record { reason = journal_truncated; journal_index = length s.events + 1 },
    ground arith,
    refl,
  )

  -- Cutting lines off the end of a verified journal, with the head file left as it is, is reported
  -- as JOURNAL_TRUNCATED, with the events that are left.
  pub inspect_truncated :
      (log : EventLog) (h : EventChainHead) (kept cut : List DokionEvent)
      → log.head_file ≡ head h
      → read_verified_events c log ≡ ok (kept ++ cut)
      → cut ≢ []
      → (tail : Option String) × (f : EventChainFailure) × (inspect_event_chain c
            (record log { journal = entries kept })
          ≡ invalid kept tail f)
        × (f.reason ≡ journal_truncated)
  unfolding inspect_event_chain
  inspect_truncated log h kept cut headed r some_cut =
      let (lines, x, t) = read_facts log (kept ++ cut) r in
      let same = events-absorb start kept in
      let (n, _) =
        subst (λ f. Heads f (kept ++ cut) (absorb start (kept ++ cut)).previous_digest) headed t in
      let fewer : length (absorb start kept).events < h.event_count =
        omega (arith, n, ap length same, length-append {0} kept cut, length_pos {0} cut some_cut) in
      let (f, short, reason) = check_head_short h (absorb start kept) fewer in
      (
        (absorb start kept).previous_digest,
        f,
        rw headed (
            rw (scan-entries c 1 start kept (Extends-prefix start kept cut x))
              (short ∙ ap (λ es. invalid es (absorb start kept).previous_digest f) same)),
        reason,
      )

-- After lines were cut off the end of a verified journal, with its head file left as it is, `appendEvent`
-- throws INVALID_EVENT and leaves the journal and the head as they were: no append covers up the cut.
pub append_event-truncated :
    (c : Codec) (valid_event : DokionEvent → Bool) (i : DokionEventInput) (now : Time)
    (log : EventLog) (h : EventChainHead) (kept cut : List DokionEvent)
    → log.head_file ≡ head h
    → read_verified_events c log ≡ ok (kept ++ cut)
    → cut ≢ []
    → append_event c valid_event i now (record log { journal = entries kept })
      ≡ (err (dokion_error ErrorCode.invalid_event), record log { journal = entries kept })
unfolding append_event read_verified_events
append_event-truncated c valid_event i now log h kept cut headed r some_cut =
    let (tail, f, found, reason) = inspect_truncated c log h kept cut headed r some_cut in
    rw found refl

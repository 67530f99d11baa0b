-- ===== src/Events/Order.antt =====
-- The order of the events that the loop of `inspectEventChain` in state/event-chain.ts accepts.
use dokion.Base.{
  ℕ, ◌+◌, ◌≡◌, refl, sym, ap, ◌∙◌, true, List, [], ◌∷◌, ◌++◌, Option, none, String, inl, inr, some,
  eq_iff, eq_refl, arith, map, ◌⊎◌, ◌≢◌, subst,
}
use mathlib.Core.List.{append-nil, append_assoc}
use dokion.Events.Digest.{Codec, DokionEvent, calculate_event_digest}
use dokion.Events.Journal.{
  Line, bad_json, off_schema, entry, opt_eq, sequence_of, Scan, EventChainFailureReason,
  invalid_json, schema_invalid, Checked, bad, good, accept, check_event, check_line, finished, scan,
  tail_of,
}

pub opt_eq-eq : (a b : Option String) → opt_eq a b ≡ true → a ≡ b
opt_eq-eq none none h = refl
opt_eq-eq (some a) (some b) h = ap some ((eq_iff a b).0 h)
opt_eq-eq none (some b) h = cc
opt_eq-eq (some a) none h = cc

pub opt_eq_refl : (a : Option String) → opt_eq a a ≡ true
opt_eq_refl none = refl
opt_eq_refl (some a) = eq_refl a

-- `e` may stand after what has been scanned.
abbrev pub Follows : Codec → Scan → DokionEvent → Type 0
Follows c s e =
    (e.previous_digest ≡ s.previous_digest)
    × (e.sequence ≡ sequence_of e.run_id s.last_sequence_by_run + 1)
    × (e.digest ≡ calculate_event_digest c e.unsigned)

abbrev pub Extends : Codec → Scan → List DokionEvent → Type 0
Extends c s [] = Unit
Extends c s (e ∷ es) = Follows c s e × Extends c (accept s e) es

abbrev pub absorb : Scan → List DokionEvent → Scan
absorb s [] = s
absorb s (e ∷ es) = absorb (accept s e) es

abbrev pub entries : List DokionEvent → List Line
entries = map entry

Checked-cases :
    (r : Checked)
    → ((reason : EventChainFailureReason) × (r ≡ bad reason)) ⊎ ((s : Scan) × (r ≡ good s))
Checked-cases (bad reason) = inl (reason, refl)
Checked-cases (good s) = inr (s, refl)

module _ (c : Codec) where
  pub check_event-eq-good :
      (s s' : Scan) (e : DokionEvent)
      → check_event c s e ≡ good s'
      → (s' ≡ accept s e) × Follows c s e
  unfolding check_event
  check_event-eq-good s s' e h = ground (
    arith,
    opt_eq-eq e.previous_digest s.previous_digest,
    eq_iff e.digest (calculate_event_digest c e.unsigned),
  )

  pub check_event_of_Follows :
      (s : Scan) (e : DokionEvent) → Follows c s e → check_event c s e ≡ good (accept s e)
  unfolding check_event
  check_event_of_Follows s e (p, q, d) = ground (
    arith,
    p,
    opt_eq_refl s.previous_digest,
    eq_iff e.digest (calculate_event_digest c e.unsigned),
  )

  scan-good :
      (index : ℕ) (s s' : Scan) (l : Line) (ls : List Line)
      → check_line c s l ≡ good s'
      → scan c index s (l ∷ ls) ≡ scan c (index + 1) s' ls
  unfolding scan
  scan-good index s s' l ls e = rw (e, scan)

  scan-bad :
      (index : ℕ) (s s' : Scan) (l : Line) (ls : List Line) (reason : EventChainFailureReason)
      → check_line c s l ≡ bad reason
      → scan c index s (l ∷ ls) ≢ finished s'
  unfolding scan
  scan-bad index s s' l ls reason e = rw (e, scan) (λ h. cc)

  -- the loop stops normally only over events that extend what came before
  pub scan-eq-finished :
      (index : ℕ) (s s' : Scan) (ls : List Line)
      → scan c index s ls ≡ finished s'
      → (es : List DokionEvent) × (ls ≡ entries es) × (s' ≡ absorb s es) × Extends c s es
  scan-eq-finished index s s' [] h = ([], refl, unfold scan in cc, tt)
  scan-eq-finished index s s' (bad_json ∷ ls) h =
      absurd (scan-bad index s s' bad_json ls invalid_json (unfold check_line in refl) h)
  scan-eq-finished index s s' (off_schema ∷ ls) h =
      absurd (scan-bad index s s' off_schema ls schema_invalid (unfold check_line in refl) h)
  scan-eq-finished index s s' (entry e ∷ ls) h = elim (Checked-cases (check_event c s e)) [
    | inl (reason, b) ↦ absurd (scan-bad index s s' (entry e) ls reason (unfold check_line in b) h)
    | inr (s1, g) ↦
        let (same, follows) = check_event-eq-good s s1 e g in
        let (es, lines, final, extends) =
          scan-eq-finished (index + 1) s1 s' ls
            (sym (scan-good index s s1 (entry e) ls (unfold check_line in g)) ∙ h) in
        (
          e ∷ es,
          ap (λ (t : List Line). entry e ∷ t) lines,
          final ∙ ap (λ t. absorb t es) same,
          (follows, subst (λ t. Extends c t es) same extends),
        )
  ]

  pub scan-entries :
      (index : ℕ) (s : Scan) (es : List DokionEvent)
      → Extends c s es
      → scan c index s (entries es) ≡ finished (absorb s es)
  scan-entries index s [] h = unfold scan in refl
  scan-entries index s (e ∷ es) (f, h) =
      scan-good index s (accept s e) (entry e) (entries es)
        (unfold check_line in check_event_of_Follows s e f)
      ∙ scan-entries (index + 1) (accept s e) es h

pub events-absorb : (s : Scan) (es : List DokionEvent) → (absorb s es).events ≡ s.events ++ es
events-absorb s [] = sym (append-nil _)
events-absorb s (e ∷ es) = events-absorb (accept s e) es ∙ append_assoc s.events (e ∷ []) es

pub absorb-append :
    (s : Scan) (es fs : List DokionEvent) → absorb s (es ++ fs) ≡ absorb (absorb s es) fs
absorb-append s [] fs = refl
absorb-append s (e ∷ es) fs = absorb-append (accept s e) es fs

pub Extends-append :
    (c : Codec) (s : Scan) (es fs : List DokionEvent)
    → Extends c s es
    → Extends c (absorb s es) fs
    → Extends c s (es ++ fs)
Extends-append c s [] fs h k = k
Extends-append c s (e ∷ es) fs (f, h) k = (f, Extends-append c (accept s e) es fs h k)

-- the digest that the next event must name
pub previous_digest-absorb :
    (s : Scan) (es : List DokionEvent)
    → tail_of s.events ≡ s.previous_digest
    → tail_of (s.events ++ es) ≡ (absorb s es).previous_digest
previous_digest-absorb s [] h = rw append-nil h
previous_digest-absorb s (e ∷ es) h =
    rw (← append_assoc s.events (e ∷ []) es)
      (previous_digest-absorb (accept s e) es (last_snoc s.events e))
  where
    last_snoc : (xs : List DokionEvent) (x : DokionEvent) → tail_of (xs ++ x ∷ []) ≡ some x.digest
    last_snoc [] x = refl
    last_snoc (y ∷ []) x = refl
    last_snoc (y ∷ z ∷ xs) x = last_snoc (z ∷ xs) x

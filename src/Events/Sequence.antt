-- ===== src/Events/Sequence.antt =====
-- The sequence numbers of state/event-log.ts, run by run.
use dokion.Base.{
  ℕ, suc, zero, ◌+◌, ◌≡◌, refl, ap, ◌∙◌, List, [], ◌∷◌, ◌++◌, String, inl, inr, Bool-cases, ◌==◌,
  eq_iff, arith, length, map, keep,
}
use dokion.Events.Digest.{Codec, DokionEvent}
use dokion.Events.Journal.{sequence_of, Scan, accept, max_sequence, max_in}
use dokion.Events.Order.{Extends, absorb}

-- from, from + 1, …, in the given number
abbrev pub counting : ℕ → ℕ → List ℕ
counting from zero = []
counting from (suc n) = from ∷ counting (from + 1) n

abbrev pub of_run : String → List DokionEvent → List DokionEvent
of_run run events = keep (λ e. e.run_id == run) events

abbrev pub sequences : String → List DokionEvent → List ℕ
sequences run events = map (λ e. e.sequence) (of_run run events)

-- The sequences of a run among the events that follow a scan go on from the run's last one.
pub sequences_of_Extends :
    (c : Codec) (run : String) (s : Scan) (es : List DokionEvent)
    → Extends c s es
    → sequences run es
      ≡ counting (sequence_of run s.last_sequence_by_run + 1) (length (of_run run es))
sequences_of_Extends c run s [] h = refl
sequences_of_Extends c run s (e ∷ es) (f, h) =
    let ih = sequences_of_Extends c run (accept s e) es h in
    elim (Bool-cases (e.run_id == run)) [
      | inl own ↦
          let ih' = rw own at ih in
          let same = ap (λ r. sequence_of r s.last_sequence_by_run) ((eq_iff e.run_id run).0 own) in
          rw own (cc (f.1, same, ih'))
      | inr not_own ↦ rw not_own (rw not_own at ih)
    ]

max_in_comm :
    (run : String) (e f : DokionEvent) (n : ℕ)
    → max_in run e (max_in run f n) ≡ max_in run f (max_in run e n)
unfolding max_in
max_in_comm run e f n = elim (Bool-cases (e.run_id == run)) [
  | inl a ↦ rw a (elim (Bool-cases (f.run_id == run)) [ inl b ↦ rw b (omega arith) | inr b ↦ rw b ])
  | inr a ↦ rw a
]

max_sequence_cons :
    (run : String) (e : DokionEvent) (es : List DokionEvent)
    → max_sequence run (e ∷ es) ≡ max_in run e (max_sequence run es)
unfolding max_sequence
max_sequence_cons run e es = refl

max_sequence-snoc :
    (run : String) (es : List DokionEvent) (e : DokionEvent)
    → max_sequence run (es ++ e ∷ []) ≡ max_in run e (max_sequence run es)
max_sequence-snoc run [] e = unfold max_sequence in refl
max_sequence-snoc run (f ∷ es) e =
    rw max_sequence_cons (
      rw max_sequence_cons (ap (max_in run f) (max_sequence-snoc run es e) ∙ max_in_comm run f e _))

max_in_next :
    (run : String) (e : DokionEvent) (s : Scan) (n : ℕ)
    → e.sequence ≡ sequence_of e.run_id s.last_sequence_by_run + 1
    → n ≡ sequence_of run s.last_sequence_by_run
    → max_in run e n ≡ sequence_of run ((e.run_id, e.sequence) ∷ s.last_sequence_by_run)
unfolding max_in
max_in_next run e s n p q = elim (Bool-cases (e.run_id == run)) [
  | inl own ↦
      rw own (
        omega (arith, ap (λ r. sequence_of r s.last_sequence_by_run) ((eq_iff e.run_id run).0 own)))
  | inr other ↦ rw other q
]

-- the loop's map holds the highest sequence of each run
pub max_sequence-absorb :
    (c : Codec) (run : String) (s : Scan) (es : List DokionEvent)
    → Extends c s es
    → max_sequence run s.events ≡ sequence_of run s.last_sequence_by_run
    → max_sequence run (absorb s es).events ≡ sequence_of run (absorb s es).last_sequence_by_run
max_sequence-absorb c run s [] h k = k
max_sequence-absorb c run s (e ∷ es) (f, h) k =
    max_sequence-absorb c run (accept s e) es h
      (max_sequence-snoc run s.events e ∙ max_in_next run e s _ f.1 k)

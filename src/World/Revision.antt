-- ===== src/World/Revision.antt =====
-- What the actions on the world do to the stored state and to what has been started: rules for the
-- engine's proofs, and the revision check of `StateStore.update`.
use dokion.Base.{
  ℕ, ◌+◌, ◌≡◌, ◌≢◌, refl, sym, ap, ◌∙◌, true, List, Option, none, some, Result, ok, err, Fault,
  ErrorCode, dokion_error, arith, Bool-cases, ◌⊎◌, inl, inr, ◌>>=◌, Option-cases, Result-cases,
  Post, Keeps, Triple,
}
use dokion.Model.State.{Time, DokionState}
use dokion.Events.{DokionEvent, DokionEventInput, EventLog, append_event}
use dokion.World.Interface.{Host, World, Invocation, ask, now, tick}
use dokion.World.Store.{
  load, update, update_state, write_validated, write_hardening_report, append, check_revision,
  read_state,
}

-- A condition on the stored state and on what has been started.
pub record View (P : Option DokionState → List Invocation → Type 0) (w : World) : Type 0 where
  pub holds : P w.stored w.invoked

-- `t` is what `update` writes for a mutator over the state `s`.
abbrev pub Written : (DokionState → Result DokionState) → DokionState → DokionState → Type 0
Written m s t = (p : DokionState) × (m s ≡ ok p) × (t ≡ record p { revision = s.revision + 1 })

module _ {P : Option DokionState → List Invocation → Type 0} where
  Post-ask :
      {A : Type 0} (r : Result A) (w : World)
      → View P w
      → Post (λ _. View P) (λ _. View P) (r, tick w)
  unfolding tick
  Post-ask (ok a) w v = record { holds = v.holds }
  Post-ask (err e) w v = record { holds = v.holds }

  pub ask-View : {A : Type 0} (f : Time → Result A) → Keeps (View P) (ask f)
  unfolding ask
  ask-View f = record { at = λ w v. Post-ask (f w.clock) w v }

  pub now-View : Keeps (View P) now
  unfolding now tick
  now-View = record { at = λ w v. record { holds = v.holds } }

  pub report-View : (h : Host) (s : DokionState) → Keeps (View P) (write_hardening_report h s)
  unfolding write_hardening_report
  report-View h s = record { at = λ w v. record { holds = v.holds } }

  pub append-View : (h : Host) (i : DokionEventInput) → Keeps (View P) (append h i)
  unfolding append
  append-View h i = record {
    at = λ w v. Post-log (append_event h.codec h.valid_event i w.clock w.log) w v;
  }
    where
      Post-log :
          (r : Result DokionEvent × EventLog) (w : World)
          → View P w
          → Post (λ _. View P) (λ _. View P) (r.0, record w { log = r.1; clock = w.clock + 1 })
      Post-log (ok a, log) w v = record { holds = v.holds }
      Post-log (err e, log) w v = record { holds = v.holds }

-- A condition on the stored state that also names it.
abbrev pub At : (List Invocation → Type 0) → DokionState → World → Type 0
At I s = View (λ stored xs. (stored ≡ some s) × I xs)

eqb_refl : (n : ℕ) → check_revision (some n) (some n) ≡ ok tt
eqb_refl n = ground arith

module _ (h : Host) where
  Post-load :
      {P : Option DokionState → List Invocation → Type 0} (o : Option DokionState) (w : World)
      → w.stored ≡ o
      → View P w
      → Post
          (λ s. View (λ stored xs. (stored ≡ some s) × P stored xs))
          (λ _. View P)
          (read_state h o, w)
  Post-load none w e v = v
  Post-load (some s) w e v = elim (Bool-cases (h.valid_state s)) [
    | inl fits ↦ rw fits (record { holds = (e, v.holds) })
    | inr bad ↦ rw bad v
  ]

  -- `load` gives the stored state, or throws and changes nothing.
  pub load-View :
      {P : Option DokionState → List Invocation → Type 0}
      → Triple
          (View P)
          (load h)
          (λ s. View (λ stored xs. (stored ≡ some s) × P stored xs))
          (λ _. View P)
  unfolding load
  load-View = record { at = λ w v. Post-load w.stored w refl v }

  module _ (m : DokionState → Result DokionState) where
    -- All outcomes of `updateState` on a stored state: nothing changes, or the mutator's state is
    -- written with the next revision, and reported.
    pub update_state-cases :
        (w : World) (s : DokionState)
        → w.stored ≡ some s
        → ((f : Fault) × (update_state h m w ≡ (err f, w)))
          ⊎ ((t : DokionState) × Written m s t
              × (update_state h m w ≡ (ok t, record w { stored = some t; report = some t })))
    unfolding update_state update load write_validated write_hardening_report ◌>>=◌
    update_state-cases w s stored = elim (Bool-cases (h.valid_state s)) [
      | inr bad ↦ inl (dokion_error ErrorCode.invalid_state, ground arith)
      | inl good ↦ elim (Result-cases (m s)) [
        | inr (e, thrown) ↦ inl (e, ground arith)
        | inl (p, changed) ↦
            let next : DokionState = record p { revision = s.revision + 1 } in
            elim (Bool-cases (h.valid_state next)) [
              | inl fits ↦ inr (next, (p, changed, refl), ground arith)
              | inr refused ↦ inl (dokion_error ErrorCode.invalid_state, ground arith)
            ]
      ]
    ]

    pub update_state-missing :
        (w : World)
        → w.stored ≡ none
        → update_state h m w ≡ (err (dokion_error ErrorCode.state_not_found), w)
    unfolding update_state load ◌>>=◌
    update_state-missing w e = ground arith

    update_state-Post :
        (I : List Invocation → Type 0) (w : World) (s : DokionState)
        → w.stored ≡ some s
        → I w.invoked
        → Post
            (λ t. View (λ stored xs. (stored ≡ some t) × Written m s t × I xs))
            (λ _. View (λ stored xs. (stored ≡ some s) × I xs))
            (update_state h m w)
    update_state-Post I w s e i = elim (update_state-cases w s e) [
      | inl (f, same) ↦ rw same (record { holds = (e, i) })
      | inr (t, written, same) ↦ rw same (record { holds = (refl, written, i) })
    ]

    pub update_state-View :
        {I : List Invocation → Type 0} (s : DokionState)
        → Triple
            (View (λ stored xs. (stored ≡ some s) × I xs))
            (update_state h m)
            (λ t. View (λ stored xs. (stored ≡ some t) × Written m s t × I xs))
            (λ _. View (λ stored xs. (stored ≡ some s) × I xs))
    update_state-View {I} s = record { at = λ w v. update_state-Post I w s v.holds.0 v.holds.1 }

  -- What a successful `update` says of the state that it found and of the one that it left.
  update-eq-ok :
      (n : ℕ) (m : DokionState → Result DokionState) (w w' : World) (s t : DokionState)
      → w.stored ≡ some s
      → update h n m w ≡ (ok t, w')
      → (n ≡ s.revision)
        × Written m s t
        × (h.valid_state t ≡ true)
        × (w' ≡ record w { stored = some t })
  unfolding update load write_validated ◌>>=◌
  update-eq-ok n m w w' s t e u = elim (Result-cases (m s)) [
    | inr (f, thrown) ↦ absurd (ground arith)
    | inl (p, changed) ↦ (ground arith, (p, changed, ground arith), ground arith, ground arith)
  ]

  update-ne-missing :
      (n : ℕ) (m : DokionState → Result DokionState) (w w' : World) (t : DokionState)
      → w.stored ≡ none
      → update h n m w ≢ (ok t, w')
  unfolding update load write_validated ◌>>=◌
  update-ne-missing n m w w' t e u = ground arith

  -- A transition that was computed from an old revision is refused, and the state is as it was.
  update-conflict :
      (n : ℕ) (m : DokionState → Result DokionState) (w : World) (s : DokionState)
      → w.stored ≡ some s
      → h.valid_state s ≡ true
      → n ≢ s.revision
      → update h n m w ≡ (err (dokion_error ErrorCode.state_revision_conflict), w)
  unfolding update load write_validated ◌>>=◌
  update-conflict n m w s e fits stale = ground arith

  -- Of two transitions that were computed from the same revision, one is applied: if the first one
  -- succeeds, it has found that revision and left the next one, and the second throws
  -- STATE_REVISION_CONFLICT and leaves the world as the first one left it.
  pub update-once :
      (n : ℕ) (m m' : DokionState → Result DokionState) (w w' : World) (t : DokionState)
      → update h n m w ≡ (ok t, w')
      → (w'.stored ≡ some t)
        × (t.revision ≡ n + 1)
        × (update h n m' w' ≡ (err (dokion_error ErrorCode.state_revision_conflict), w'))
  update-once n m m' w w' t u = elim (Option-cases w.stored) [
    | inl missing ↦ absurd (update-ne-missing n m w w' t missing u)
    | inr (s, e) ↦
        let (found, (p, changed, next), fits, left) = update-eq-ok n m w w' s t e u in
        let stored : w'.stored ≡ some t = ap (λ v. v.stored) left in
        let revision : t.revision ≡ n + 1 =
          ap (λ r. r.revision) next ∙ ap (λ (k : ℕ). k + 1) (sym found) in
        (stored, revision, update-conflict n m' w' t stored fits (omega arith))
  ]

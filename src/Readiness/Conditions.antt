-- ===== src/Readiness/Conditions.antt =====
-- readiness/release-gates.ts: what the condition of a gate asks for.
use dokion.Base.{
  String, Bool, true, false, not, ◌&&◌, ◌||◌, List, [], ◌∷◌, keep, every, is_empty, All, All-weaken,
  All-each, keep-empty, keep_none, Option, none, some, is_some, ◌==◌, ◌≡◌, ◌≢◌, ◌↔◌, refl, ◌⊎◌, inl,
  inr, Bool-cases, arith, eq_iff,
}
use dokion.Model.Playbook.{PlaybookStep}
use dokion.Model.State.{RunStatus, LaneStatus, CoverageLaneState, Taint}
use dokion.Readiness.Criteria.{
  NormalizedFinding, is_closed_finding, step_by_id, declared_steps, is_required, is_done,
}
use dokion.Readiness.Coverage.{is_assigned}
use dokion.Readiness.Gates.{
  Condition, no_open_findings, required_steps_complete, playbook_not_tainted,
  blocking_lanes_assigned, unsupported, GatesHost, GatesInput, lane_by_name, blocking_lane_names,
  is_assigned_lane, is_tainted, condition_passed,
}

-- what a condition asks of the run
abbrev pub Holds : GatesInput → Condition → Type 0
Holds i (no_open_findings severity) =
    All (λ f. (f.severity ≢ severity) ⊎ (is_closed_finding f.status ≡ true)) i.findings
Holds i required_steps_complete =
    All (λ s. (is_required s ≡ false) ⊎ (is_done (step_by_id i.state s.id) ≡ true))
      (declared_steps i.playbook)
Holds i playbook_not_tainted =
    (i.state.run.status ≢ RunStatus.tainted) × (i.state.playbook.tainted ≡ none)
Holds i blocking_lanes_assigned =
    All
      (λ lane.
        (l : CoverageLaneState) × (lane_by_name i.state lane ≡ some l)
        × (l.status ≡ LaneStatus.assigned))
      (blocking_lane_names i.playbook i.state)
Holds i unsupported = ⊥

every_iff :
    {A : Type 0} (p : A → Bool) (P : A → Type 0) (xs : List A)
    → ((x : A) → (p x ≡ true) ↔ P x)
    → (every p xs ≡ true) ↔ All P xs
every_iff p P [] h = (λ _. tt, λ _. refl)
every_iff p P (x ∷ xs) h = (
  λ k. let (a, b) = and-true (p x) (every p xs) k in ((h x).0 a, (every_iff p P xs h).0 b),
  λ (a, b). rw ((h x).1 a, (every_iff p P xs h).1 b) refl,
)
  where
    and-true : (a b : Bool) → a && b ≡ true → (a ≡ true) × (b ≡ true)
    and-true true b h = (refl, h)
    and-true false b h = cc

none_iff :
    {A : Type 0} (p : A → Bool) (P : A → Type 0) (xs : List A)
    → ((x : A) → (p x ≡ false) ↔ P x)
    → (is_empty (keep p xs) ≡ true) ↔ All P xs
none_iff p P xs h = (
  λ k. All-each P xs (λ x j. (h x).0 (keep-empty p x xs k j)),
  λ all. rw (keep_none p xs (All-weaken P _ xs (λ x. (h x).1) all)) refl,
)

finding_ok :
    (severity : String) (f : NormalizedFinding)
    → ((f.severity == severity && not (is_closed_finding f.status)) ≡ false)
      ↔ ((f.severity ≢ severity) ⊎ (is_closed_finding f.status ≡ true))
finding_ok severity f = (
  λ h. elim (Bool-cases (is_closed_finding f.status)) [
    | inl t ↦ inr t
    | inr u ↦ inl (λ e. ground (arith, h, u, eq_iff f.severity severity, e))
  ],
  λ h. ground (arith, h, eq_iff f.severity severity),
)

step_ok :
    (i : GatesInput) (s : PlaybookStep)
    → ((not (is_required s) || is_done (step_by_id i.state s.id)) ≡ true)
      ↔ ((is_required s ≡ false) ⊎ (is_done (step_by_id i.state s.id) ≡ true))
step_ok i s = (
  there (is_required s) (is_done (step_by_id i.state s.id)),
  back (is_required s) (is_done (step_by_id i.state s.id)),
)
  where
    there : (a b : Bool) → not a || b ≡ true → (a ≡ false) ⊎ (b ≡ true)
    there false b h = inl refl
    there true b h = inr h

    back : (a b : Bool) → (a ≡ false) ⊎ (b ≡ true) → not a || b ≡ true
    back a b (inl e) = rw e refl
    back false b (inr e) = refl
    back true b (inr e) = e

lane_ok :
    (i : GatesInput) (lane : String)
    → (is_assigned_lane (lane_by_name i.state lane) ≡ true) ↔ (
        (l : CoverageLaneState) × (lane_by_name i.state lane ≡ some l)
        × (l.status ≡ LaneStatus.assigned))
lane_ok i lane = (there (lane_by_name i.state lane), back (lane_by_name i.state lane))
  where
    full : (s : LaneStatus) → is_assigned s ≡ true → s ≡ LaneStatus.assigned
    full LaneStatus.assigned h = refl
    full LaneStatus.partial h = cc
    full LaneStatus.unassigned h = cc

    there :
        (o : Option CoverageLaneState)
        → is_assigned_lane o ≡ true
        → (l : CoverageLaneState) × (o ≡ some l) × (l.status ≡ LaneStatus.assigned)
    there none h = cc
    there (some l) h = (l, refl, full l.status h)

    back :
        (o : Option CoverageLaneState)
        → (l : CoverageLaneState) × (o ≡ some l) × (l.status ≡ LaneStatus.assigned)
        → is_assigned_lane o ≡ true
    back o (l, e, t) = rw (e, t) refl

never : (a : Bool) → not (a || true) ≢ true
never true h = cc
never false h = cc

untainted :
    (s : RunStatus) (t : Option Taint)
    → (not (is_tainted s || is_some t) ≡ true) ↔ ((s ≢ RunStatus.tainted) × (t ≡ none))
untainted s t = (there t, λ (ne, e). rw e (back s ne))
  where
    there :
        (t : Option Taint)
        → not (is_tainted s || is_some t) ≡ true
        → (s ≢ RunStatus.tainted) × (t ≡ none)
    there none h = (λ e. cc (e, h), refl)
    there (some t) h = absurd (never (is_tainted s) h)

    back : (s : RunStatus) → s ≢ RunStatus.tainted → not (is_tainted s || false) ≡ true
    back RunStatus.tainted ne = absurd (ne refl)
    back RunStatus.running ne = refl
    back RunStatus.awaiting_user ne = refl
    back RunStatus.completed ne = refl
    back RunStatus.stopped ne = refl
    back RunStatus.blocked ne = refl
    back RunStatus.failed ne = refl
    back RunStatus.stale ne = refl

pub condition_passed-Holds :
    (h : GatesHost) (i : GatesInput) (c : Condition) → (condition_passed h i c ≡ true) ↔ Holds i c
unfolding condition_passed
condition_passed-Holds h i (no_open_findings severity) =
    none_iff (λ f. f.severity == severity && not (is_closed_finding f.status)) _ i.findings
      (finding_ok severity)
condition_passed-Holds h i required_steps_complete =
    every_iff (λ s. not (is_required s) || is_done (step_by_id i.state s.id)) _
      (declared_steps i.playbook) (step_ok i)
condition_passed-Holds h i playbook_not_tainted =
    untainted i.state.run.status i.state.playbook.tainted
condition_passed-Holds h i blocking_lanes_assigned =
    every_iff (λ lane. is_assigned_lane (lane_by_name i.state lane)) _
      (blocking_lane_names i.playbook i.state) (lane_ok i)
condition_passed-Holds h i unsupported = (λ k. cc, λ k. elim k [ ])

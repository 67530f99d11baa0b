-- ===== src/Readiness/Lanes.antt =====
-- readiness/coverage.ts: when there is no cap on readiness.
use dokion.Base.{
  String, Bool, true, false, not, ◌&&◌, ◌||◌, List, [], ◌∷◌, ◌++◌, map, keep, some_of, is_empty,
  includes, All, none, ◌or◌, ◌==◌, map_get, sorted_unique, ◌≡◌, ◌↔◌, refl, sym, ap, ◌∙◌, inl, inr,
  some_of-In, some_of_member, In-keep, In-keep_of, is_empty-In, keep-empty, In-append_left,
  In-append_right, In-map, All-each, In, All_In, In-sorted_unique, includes-In, includes_of_In,
  Bool-cases, Option-cases, arith, eq_iff,
}
use dokion.Model.Playbook.{
  CoverageLaneStatus, assigned, partial, CoverageLaneAssignment, PlaybookStep,
}
use dokion.Model.State.{DokionState, LaneStatus, CoverageLaneState}
use dokion.Readiness.Criteria.{step_by_id, declared_steps}
use dokion.Readiness.Coverage.{
  CoverageInput, ManifestCoverageGap, strongest_status, lane_status, normalize_manifest_status,
  excluded_step, assignments_of, strengthen, counts, status_after, is_assigned, blocking_lanes,
  lane_names, others, baseline_status, lane_state, cap_of, evaluate_coverage,
}

-- A step that is not skipped or stopped is assigned to the lane in full.
pub record Covered (state : DokionState) (steps : List PlaybookStep) (lane : String) : Type 0 where
  pub step : PlaybookStep
  pub declared : In step steps
  pub counted : excluded_step (step_by_id state step.id) ≡ false
  pub assignment : CoverageLaneAssignment
  pub listed : In assignment (step.coverage_lanes or [])
  pub of_lane : assignment.lane ≡ lane
  pub in_full : assignment.status ≡ assigned

abbrev is_full : CoverageLaneAssignment → Bool
is_full a = is_assigned (lane_status a.status)

is_assigned-strongest_status :
    (a b : LaneStatus) → is_assigned (strongest_status a b) ≡ is_assigned a || is_assigned b
is_assigned-strongest_status LaneStatus.assigned LaneStatus.assigned = refl
is_assigned-strongest_status LaneStatus.assigned LaneStatus.partial = refl
is_assigned-strongest_status LaneStatus.assigned LaneStatus.unassigned = refl
is_assigned-strongest_status LaneStatus.partial LaneStatus.assigned = refl
is_assigned-strongest_status LaneStatus.partial LaneStatus.partial = refl
is_assigned-strongest_status LaneStatus.partial LaneStatus.unassigned = refl
is_assigned-strongest_status LaneStatus.unassigned LaneStatus.assigned = refl
is_assigned-strongest_status LaneStatus.unassigned LaneStatus.partial = refl
is_assigned-strongest_status LaneStatus.unassigned LaneStatus.unassigned = refl

or_assoc : (a b c : Bool) → (a || b) || c ≡ a || (b || c)
or_assoc true b c = refl
or_assoc false b c = refl

and-true : (a b : Bool) → a && b ≡ true → (a ≡ true) × (b ≡ true)
and-true true b h = (refl, h)
and-true false b h = cc

is_assigned-strengthen :
    (st : LaneStatus) (rest : List CoverageLaneAssignment)
    → is_assigned (strengthen st rest) ≡ is_assigned st || some_of is_full rest
is_assigned-strengthen st [] = ground arith
is_assigned-strengthen st (a ∷ rest) =
    let ih = is_assigned-strengthen (strongest_status st (lane_status a.status)) rest in
    let both = is_assigned-strongest_status st (lane_status a.status) in
    ih
    ∙ ap (λ b. b || some_of is_full rest) both
    ∙ or_assoc (is_assigned st) (is_full a) (some_of is_full rest)

abbrev covers : DokionState → String → PlaybookStep → Bool
covers state lane s = counts state lane s && some_of is_full (assignments_of lane s)

is_assigned-status_after :
    (state : DokionState) (lane : String) (st : LaneStatus) (steps : List PlaybookStep)
    → is_assigned (status_after state lane st steps)
      ≡ is_assigned st || some_of (covers state lane) steps
is_assigned-status_after state lane st [] = ground arith
is_assigned-status_after state lane st (s ∷ steps) = elim (Bool-cases (counts state lane s)) [
  | inl t ↦ rw t (
      is_assigned-status_after state lane (strengthen st (assignments_of lane s)) steps
      ∙ ap (λ b. b || some_of (covers state lane) steps)
          (is_assigned-strengthen st (assignments_of lane s))
      ∙ or_assoc (is_assigned st) (some_of is_full (assignments_of lane s))
          (some_of (covers state lane) steps))
  | inr f ↦ rw f (is_assigned-status_after state lane st steps)
]

baseline_status-unassigned :
    (i : CoverageInput) (lane : String) → is_assigned (baseline_status i lane) ≡ false
baseline_status-unassigned i lane = among (i.manifest.gaps or [])
  where
    normal : (status : String) → is_assigned (normalize_manifest_status status) ≡ false
    normal status = ground arith

    among :
        (gaps : List ManifestCoverageGap)
        → is_assigned (
            map_get lane (map (λ g. (g.lane, normalize_manifest_status g.status)) gaps)
            or LaneStatus.unassigned)
          ≡ false
    among [] = refl
    among (g ∷ gs) =
        elim (Option-cases
          (map_get lane (map (λ t. (t.lane, normalize_manifest_status t.status)) gs))) [
            | inr (w, e) ↦ rw e (rw e at (among gs))
            | inl e ↦ rw e (ground (arith, normal g.status))
          ]

-- a lane is assigned exactly if a step covers it
lane_state-Covered :
    (i : CoverageInput) (lane : String)
    → is_assigned (lane_state i lane).status
      ≡ some_of (covers i.state lane) (declared_steps i.playbook)
lane_state-Covered i lane =
    is_assigned-status_after i.state lane (baseline_status i lane) (declared_steps i.playbook)
    ∙ ap (λ b. b || some_of (covers i.state lane) (declared_steps i.playbook))
        (baseline_status-unassigned i lane)

covers-Covered :
    (state : DokionState) (steps : List PlaybookStep) (lane : String)
    → some_of (covers state lane) steps ≡ true
    → Covered state steps lane
covers-Covered state steps lane h =
    let (step, declared, t) = some_of-In (covers state lane) steps h in
    let (counted, full) =
      and-true (counts state lane step) (some_of is_full (assignments_of lane step)) t in
    let (a, i, u) = some_of-In is_full (assignments_of lane step) full in
    let (listed, of_lane) = In-keep (λ a. a.lane == lane) a (step.coverage_lanes or []) i in
    record {
      step = step;
      declared = declared;
      counted = ground (arith, counted);
      assignment = a;
      listed = listed;
      of_lane = (eq_iff a.lane lane).0 of_lane;
      in_full = full_status a.status u;
    }
  where
    full_status : (c : CoverageLaneStatus) → is_assigned (lane_status c) ≡ true → c ≡ assigned
    full_status assigned u = refl
    full_status partial u = cc

covers_of_Covered :
    (state : DokionState) (steps : List PlaybookStep) (lane : String)
    → Covered state steps lane
    → some_of (covers state lane) steps ≡ true
covers_of_Covered state steps lane c =
    let i =
      In-keep_of (λ a. a.lane == lane) c.assignment (c.step.coverage_lanes or []) c.listed
        ((eq_iff c.assignment.lane lane).1 c.of_lane) in
    some_of_member (covers state lane) c.step steps c.declared (
      rw
        (
          is_empty-In c.assignment (assignments_of lane c.step) i,
          c.counted,
          some_of_member is_full c.assignment (assignments_of lane c.step) i (rw c.in_full refl),
        )
        refl)

is_empty-map : {A B : Type 0} (f : A → B) (xs : List A) → is_empty (map f xs) ≡ is_empty xs
is_empty-map f [] = refl
is_empty-map f (x ∷ xs) = refl

keep-map_none :
    {A B : Type 0} (p : B → Bool) (f : A → B) (xs : List A)
    → ((x : A) → p (f x) ≡ false)
    → keep p (map f xs) ≡ []
keep-map_none p f [] h = refl
keep-map_none p f (x ∷ xs) h = rw (h x) (keep-map_none p f xs h)

-- the test of the lanes that cap readiness
abbrev caps : CoverageLaneState → Bool
caps l = l.blocking && not (is_assigned l.status)

blocking_lane-named :
    (i : CoverageInput) (lane : String)
    → In lane (blocking_lanes i)
    → In lane (sorted_unique (lane_names i))
blocking_lane-named i lane j = In-sorted_unique lane (lane_names i) (
    In-append_right lane (map (λ g. g.lane) (i.manifest.gaps or [])) (blocking_lanes i ++ others i)
      (In-append_left lane (blocking_lanes i) (others i) j))

cap_of-none :
    (i : CoverageInput) (lanes : List String) → cap_of i lanes ≡ none → is_empty lanes ≡ true
cap_of-none i [] h = refl
cap_of-none i (l ∷ ls) h = cc

caps-Covered :
    (i : CoverageInput) (lane : String)
    → caps (lane_state i lane) ≡ false
    → includes lane (blocking_lanes i) ≡ true
    → Covered i.state (declared_steps i.playbook) lane
caps-Covered i lane h b = covers-Covered i.state (declared_steps i.playbook) lane (
    sym (lane_state-Covered i lane)
    ∙ not-false (is_assigned (lane_state i lane).status) (rw b at h))
  where
    not-false : (a : Bool) → not a ≡ false → a ≡ true
    not-false true k = refl
    not-false false k = cc

caps_of_Covered :
    (i : CoverageInput) (lane : String)
    → (In lane (blocking_lanes i) → Covered i.state (declared_steps i.playbook) lane)
    → caps (lane_state i lane) ≡ false
caps_of_Covered i lane c = elim (Bool-cases (includes lane (blocking_lanes i))) [
  | inr f ↦ rw f refl
  | inl t ↦
      rw
        (
          t,
          lane_state-Covered i lane,
          covers_of_Covered i.state (declared_steps i.playbook) lane
              (c (includes-In lane (blocking_lanes i) t)),
        )
        refl
]

-- Readiness is not capped exactly if each blocking lane of the policy is assigned in full to some step
-- that was not skipped or stopped.
pub evaluate_coverage-Covered :
    (i : CoverageInput)
    → ((evaluate_coverage i).readiness_cap ≡ none)
      ↔ All (Covered i.state (declared_steps i.playbook)) (blocking_lanes i)
unfolding evaluate_coverage
evaluate_coverage-Covered i = (
  λ h. All-each _ (blocking_lanes i) (λ lane j.
      caps-Covered i lane
        (keep-empty caps (lane_state i lane) _
          (sym (is_empty-map (λ l. l.lane) (keep caps lanes)) ∙ cap_of-none i _ h)
          (In-map (lane_state i) lane (sorted_unique (lane_names i))
            (blocking_lane-named i lane j)))
        (includes_of_In lane (blocking_lanes i) j)),
  λ all.
      rw
        (keep-map_none caps (lane_state i) (sorted_unique (lane_names i))
          (λ lane. caps_of_Covered i lane (λ j. All_In _ lane (blocking_lanes i) all j)))
        refl,
)
  where
    lanes : List CoverageLaneState
    lanes = map (lane_state i) (sorted_unique (lane_names i))

-- ===== src/Readiness/Ready.antt =====
-- readiness/readiness-statement.ts and readiness/promotion-signoff.ts: what is accepted.
use dokion.Base.{
  String, Bool, true, false, not, ◌&&◌, List, [], ◌∷◌, map, keep, is_empty, unique, All, All-each,
  keep-empty, keep_none, ◌≡◌, ◌≢◌, ◌↔◌, refl, sym, ap, ◌∙◌, ◌⊎◌, inl, inr, Result, ok, err, Fault,
  Bool-cases, arith, All-weaken,
}
use dokion.Model.State.{GateStatus, ReleaseGateState, LaneStatus, CoverageLaneState}
use dokion.Readiness.Criteria.{is_pass}
use dokion.Readiness.Coverage.{is_assigned}
use dokion.Readiness.Statement.{
  QualifiedReadinessInput, QualifiedReadinessStatement, Texts, claims_ready, has_identifiers,
  blocking_gate_failures, uncovered_blocking_lanes, format_readiness_statement,
  PromotionSignoffInput, PromotionSignoffRecord, GateResult, SignoffStatus, pass, fail, blocked,
  did_pass, statement, signoff, generate_promotion_signoff_record,
}

-- `sort` of a list gives a list that is empty exactly if the first is
abbrev pub SortKeepsEmpty : Texts → Type 0
SortKeepsEmpty t = (xs : List String) → is_empty (t.sort xs) ≡ is_empty xs

-- no gate that blocks has failed, and no lane that blocks is uncovered
abbrev pub Unblocked : QualifiedReadinessInput → Type 0
Unblocked i =
    All (λ g. (g.blocking ≡ false) ⊎ (g.status ≡ GateStatus.pass)) i.gates
    × All (λ l. (l.blocking ≡ false) ⊎ (l.status ≡ LaneStatus.assigned)) i.coverage

gate_ok :
    (g : ReleaseGateState)
    → ((g.blocking && not (is_pass g.status)) ≡ false)
      ↔ ((g.blocking ≡ false) ⊎ (g.status ≡ GateStatus.pass))
gate_ok g = (there g.blocking g.status, back g.blocking g.status)
  where
    there :
        (b : Bool) (s : GateStatus)
        → (b && not (is_pass s)) ≡ false
        → (b ≡ false) ⊎ (s ≡ GateStatus.pass)
    there false s h = inl refl
    there true GateStatus.pass h = inr refl
    there true GateStatus.fail h = cc
    there true GateStatus.not_run h = cc
    there true GateStatus.skipped h = cc

    back :
        (b : Bool) (s : GateStatus)
        → (b ≡ false) ⊎ (s ≡ GateStatus.pass)
        → (b && not (is_pass s)) ≡ false
    back b s (inl f) = rw f refl
    back b s (inr e) = rw e (ground arith)

lane_ok :
    (l : CoverageLaneState)
    → ((l.blocking && not (is_assigned l.status)) ≡ false)
      ↔ ((l.blocking ≡ false) ⊎ (l.status ≡ LaneStatus.assigned))
lane_ok l = (there l.blocking l.status, back l.blocking l.status)
  where
    there :
        (b : Bool) (s : LaneStatus)
        → (b && not (is_assigned s)) ≡ false
        → (b ≡ false) ⊎ (s ≡ LaneStatus.assigned)
    there false s h = inl refl
    there true LaneStatus.assigned h = inr refl
    there true LaneStatus.partial h = cc
    there true LaneStatus.unassigned h = cc

    back :
        (b : Bool) (s : LaneStatus)
        → (b ≡ false) ⊎ (s ≡ LaneStatus.assigned)
        → (b && not (is_assigned s)) ≡ false
    back b s (inl f) = rw f refl
    back b s (inr e) = rw e (ground arith)

-- the list of what `keep` finds, sorted and each once, is empty exactly if nothing is found
found_none :
    {A : Type 0} (t : Texts)
    → SortKeepsEmpty t
    → (p : A → Bool) (name : A → String) (xs : List A)
    → (is_empty (t.sort (unique (map name (keep p xs)))) ≡ true) ↔ All (λ x. p x ≡ false) xs
found_none {A} t sorts p name xs = (
  λ h. All-each _ xs (λ x i. keep-empty p x xs (sym (same (keep p xs)) ∙ sym (sorts _) ∙ h) i),
  λ all. sorts _ ∙ rw (keep_none p xs all) refl,
)
  where
    same : (ys : List A) → is_empty (unique (map name ys)) ≡ is_empty ys
    same [] = refl
    same (y ∷ ys) = refl

and-true : (a b : Bool) → a && b ≡ true → (a ≡ true) × (b ≡ true)
and-true true b h = (refl, h)
and-true false b h = cc

err-ne-ok : {A : Type 0} {e : Fault} {a : A} → ◌≢◌ {A = Result A} (err e) (ok a)
err-ne-ok h = cc

-- the test of the evidence that a claim of readiness must pass
abbrev evidence_holds : Texts → QualifiedReadinessInput → Bool
evidence_holds t i =
    is_empty (blocking_gate_failures t i) && is_empty (uncovered_blocking_lanes t i)

evidence_holds-Unblocked :
    (t : Texts) (i : QualifiedReadinessInput)
    → SortKeepsEmpty t
    → (evidence_holds t i ≡ true) ↔ Unblocked i
unfolding blocking_gate_failures uncovered_blocking_lanes
evidence_holds-Unblocked t i sorts = (
  λ h.
      let (a, b) =
        and-true (is_empty (blocking_gate_failures t i)) (is_empty (uncovered_blocking_lanes t i))
          h in
      (
        All-weaken _ _ i.gates (λ g. (gate_ok g).0) (gates.0 a),
        All-weaken _ _ i.coverage (λ l. (lane_ok l).0) (lanes.0 b),
      ),
  λ (u, v).
      rw
        (
          gates.1 (All-weaken _ _ i.gates (λ g. (gate_ok g).1) u),
          lanes.1 (All-weaken _ _ i.coverage (λ l. (lane_ok l).1) v),
        )
        refl,
)
  where
    gates :
        (is_empty (blocking_gate_failures t i) ≡ true)
        ↔ All (λ g. (g.blocking && not (is_pass g.status)) ≡ false) i.gates
    gates = found_none t sorts (λ g. g.blocking && not (is_pass g.status)) (λ g. g.id) i.gates

    lanes :
        (is_empty (uncovered_blocking_lanes t i) ≡ true)
        ↔ All (λ l. (l.blocking && not (is_assigned l.status)) ≡ false) i.coverage
    lanes =
        found_none t sorts (λ l. l.blocking && not (is_assigned l.status)) (λ l. l.lane) i.coverage

abbrev pub Acceptable : Texts → QualifiedReadinessInput → Type 0
Acceptable t i = (has_identifiers t i ≡ true) × ((claims_ready i.status ≡ false) ⊎ Unblocked i)

-- `formatReadinessStatement` gives a statement exactly if the identifiers, the subject and the time
-- are valid and either the status does not claim readiness, or every blocking gate has passed and
-- every blocking lane is assigned.
pub format_readiness_statement-Acceptable :
    (t : Texts) (i : QualifiedReadinessInput)
    → SortKeepsEmpty t
    → ((s : QualifiedReadinessStatement) × (format_readiness_statement t i ≡ ok s)) ↔ Acceptable t i
unfolding format_readiness_statement
format_readiness_statement-Acceptable t i sorts = (accepted, given)
  where
    accepted :
        (s : QualifiedReadinessStatement) × (format_readiness_statement t i ≡ ok s) → Acceptable t i
    accepted (s, h) = elim (Bool-cases (has_identifiers t i)) [
      | inr f ↦ absurd (err-ne-ok (rw f at h))
      | inl valid ↦ elim (Bool-cases (claims_ready i.status)) [
        | inr f ↦ (valid, inl f)
        | inl claims ↦ elim (Bool-cases (evidence_holds t i)) [
          | inl holds ↦ (valid, inr ((evidence_holds-Unblocked t i sorts).0 holds))
          | inr f ↦ absurd (err-ne-ok (rw (valid, claims, f) at h))
        ]
      ]
    ]

    given :
        Acceptable t i → (s : QualifiedReadinessStatement) × (format_readiness_statement t i ≡ ok s)
    given (valid, inl f) = (statement t i, rw (valid, f) refl)
    given (valid, inr u) = elim (Bool-cases (claims_ready i.status)) [
      | inl claims ↦
          (statement t i, rw (valid, claims, (evidence_holds-Unblocked t i sorts).1 u) refl)
      | inr f ↦ (statement t i, rw (valid, f) refl)
    ]

-- `generatePromotionSignoffRecord` gives a record exactly if every gate has passed.
pub generate_promotion_signoff_record-passed :
    (sort : List String → List String) (sha256_json : PromotionSignoffInput → String) (now : String)
    (i : PromotionSignoffInput)
    → ((r : PromotionSignoffRecord) × (generate_promotion_signoff_record sort sha256_json now i
          ≡ ok r))
      ↔ All (λ g. g.status ≡ pass) i.gates
unfolding generate_promotion_signoff_record
generate_promotion_signoff_record-passed sort sha256_json now i = (
  accepted failing refl,
  λ all. (
    signoff sort sha256_json now i,
    rw
        (keep_none (λ g. not (did_pass g.status)) i.gates
          (All-weaken _ _ i.gates (λ g e. rw e refl) all))
        refl,
  ),
)
  where
    failing : List GateResult
    failing = keep (λ g. not (did_pass g.status)) i.gates

    passed : (s : SignoffStatus) → not (did_pass s) ≡ false → s ≡ pass
    passed pass h = refl
    passed fail h = cc
    passed blocked h = cc

    accepted :
        (gs : List GateResult)
        → failing ≡ gs
        → (r : PromotionSignoffRecord) × (generate_promotion_signoff_record sort sha256_json now i
            ≡ ok r)
        → All (λ g. g.status ≡ pass) i.gates
    accepted [] e (r, h) = All-each _ i.gates (λ g j.
        passed g.status (keep-empty (λ t. not (did_pass t.status)) g i.gates (ap is_empty e) j))
    accepted (g ∷ gs) e (r, h) = absurd (err-ne-ok (rw (generate_promotion_signoff_record, e) at h))

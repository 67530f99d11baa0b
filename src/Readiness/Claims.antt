-- ===== src/Readiness/Claims.antt =====
-- readiness/completion.ts: what a claim of completion says of the run.
use dokion.Base.{
  subst, String, Bool, true, false, not, ◌&&◌, List, [], ◌∷◌, map, keep, every, is_empty, All,
  Option, none, some, ◌≡◌, ◌≢◌, refl, ap, ◌⊎◌, inl, inr, ◌or◌, eq_iff, Bool-cases, is_some, arith,
  leb,
}
use dokion.Model.State.{RunStatus, Taint}
use dokion.Readiness.Criteria.{
  CompletionCriterionId, CompletionCriterionResult, CompletionEvaluationInput, NormalizedFinding,
  run_completed, rank, is_done, is_required, declared_steps, step_by_id, gate_by_id, gate_passed,
  is_closed_finding, baseline_commit, is_text,
}
use dokion.Readiness.Completion.{
  evaluate_completion, criterion, block, is_failing, sort_ids, insert_id, criteria_of, checks,
  is_stale,
}

insert_id-filled :
    (c : CompletionCriterionId) (cs : List CompletionCriterionId)
    → is_empty (insert_id c cs) ≡ false
insert_id-filled c [] = refl
insert_id-filled c (d ∷ ds) = elim (Bool-cases (leb (rank c) (rank d))) [
  | inl first ↦ rw first refl
  | inr later ↦ rw later refl
]

sort_ids_empty : (cs : List CompletionCriterionId) → is_empty (sort_ids cs) ≡ true → cs ≡ []
sort_ids_empty [] h = refl
sort_ids_empty (c ∷ cs) h = cc (h, insert_id-filled c (sort_ids cs))

abbrev failing_ids : List CompletionCriterionResult → List CompletionCriterionId
failing_ids rs = map (λ r. r.id) (keep (λ r. is_failing r.status) rs)

fresh_pass :
    (cs : List (CompletionCriterionId × Bool))
    → failing_ids (map criterion cs) ≡ []
    → All (λ c. c.1 ≡ true) cs
fresh_pass [] h = tt
fresh_pass ((id, true) ∷ cs) h = (refl, fresh_pass cs h)
fresh_pass ((id, false) ∷ cs) h = cc

stale_fails :
    (c : CompletionCriterionId × Bool) (cs : List (CompletionCriterionId × Bool))
    → failing_ids (map block (map criterion (c ∷ cs))) ≢ []
stale_fails c cs h = cc

and_right : (a b : Bool) → (a && b) ≡ true → b ≡ true
and_right true b h = h
and_right false b h = cc

and_left : (a b : Bool) → (a && b) ≡ true → a ≡ true
and_left true b h = refl
and_left false b h = h

none_failing :
    (b : Bool) (cs : List (CompletionCriterionId × Bool))
    → cs ≢ []
    → failing_ids (criteria_of b (map criterion cs)) ≡ []
    → (b ≡ false) × All (λ c. c.1 ≡ true) cs
none_failing b [] some_check h = absurd (some_check refl)
none_failing true (c ∷ cs) some_check h = absurd (stale_fails c cs h)
none_failing false (c ∷ cs) some_check h = (refl, fresh_pass (c ∷ cs) h)

checks-ne-nil : (i : CompletionEvaluationInput) → checks i ≢ []
checks-ne-nil i e = subst Filled e tt
  where
    Filled : List (CompletionCriterionId × Bool) → Type 0
    Filled [] = ⊥
    Filled (c ∷ cs) = Unit

blocking_closed : (a c : Bool) → (a && not c) ≡ false → (a ≡ false) ⊎ (c ≡ true)
blocking_closed false c h = inl refl
blocking_closed true true h = inr refl
blocking_closed true false h = cc

claimed_facts :
    (i : CompletionEvaluationInput)
    → (evaluate_completion i).claimed ≡ true
    → (is_stale i ≡ false) × All (λ c. c.1 ≡ true) (checks i)
unfolding evaluate_completion
claimed_facts i h =
    none_failing (is_stale i) (checks i) (checks-ne-nil i) (sort_ids_empty _ (and_right _ _ h))

run_completed-eq : (s : RunStatus) → run_completed s ≡ true → s ≡ RunStatus.completed
run_completed-eq RunStatus.completed h = refl
run_completed-eq _ h = cc

is_text-eq : (o : Option String) (s : String) → is_text o s ≡ true → o ≡ some s
is_text-eq none s h = cc
is_text-eq (some t) s h = ap some ((eq_iff t s).0 h)

no_open-All :
    (fs : List NormalizedFinding)
    → is_empty (keep (λ f. f.blocks_release && not (is_closed_finding f.status)) fs) ≡ true
    → All (λ f. (f.blocks_release ≡ false) ⊎ (is_closed_finding f.status ≡ true)) fs
no_open-All [] h = tt
no_open-All (f ∷ fs) h = elim (Bool-cases (f.blocks_release && not (is_closed_finding f.status))) [
  | inl blocks ↦ absurd (let h' = rw blocks at h in cc)
  | inr passes ↦ (
    blocking_closed f.blocks_release (is_closed_finding f.status) passes,
    no_open-All fs (rw passes at h),
  )
]

untainted : (t : Option Taint) (b : Bool) → (not (is_some t) && b) ≡ true → (t ≡ none) × (b ≡ true)
untainted none b h = (refl, h)
untainted (some t) b h = cc

every-All : {A : Type 0} (p : A → Bool) (xs : List A) → every p xs ≡ true → All (λ x. p x ≡ true) xs
every-All p [] h = tt
every-All p (x ∷ xs) h =
    let here : p x ≡ true = ground arith in
    let rest : every p xs ≡ true = ground arith in (here, every-All p xs rest)

-- A claim of completion is true of the run: the run is completed, every required step has succeeded
-- or was inapplicable, every release gate has passed, every finding that blocks the release is
-- closed, the results are those of the current commit, and the playbook is the current one and was
-- not tainted.
pub evaluate_completion-claimed :
    (i : CompletionEvaluationInput)
    → (evaluate_completion i).claimed ≡ true
    → (i.state.run.status ≡ RunStatus.completed)
      × All
          (λ s. is_done (step_by_id i.state s.id) ≡ true)
          (keep is_required (declared_steps i.playbook))
      × All (λ g. gate_passed (gate_by_id i.state g.id) ≡ true) (i.playbook.release_gates or [])
      × All (λ f. (f.blocks_release ≡ false) ⊎ (is_closed_finding f.status ≡ true)) i.findings
      × (baseline_commit i.state ≡ some i.current_commit)
      × (i.state.repository_identity.commit ≡ some i.current_commit)
      × (i.state.playbook.tainted ≡ none)
      × (i.state.playbook.digest ≡ i.current_playbook_digest)
evaluate_completion-claimed i h =
    let (
      fresh,
      (
        steps,
        (
          verified,
          (
            gates,
            (
              findings,
              (
                approvals,
                (manual, (commits, (manifest, (order, (skips, (advice, (stable, others))))))),
              ),
            ),
          ),
        ),
      ),
    ) =
      claimed_facts i h in
    let (clean, same) = untainted _ _ (and_right _ _ stable) in
    (
      run_completed-eq _ (and_left _ _ steps),
      every-All _ _ (and_right _ _ steps),
      every-All _ _ gates,
      no_open-All _ findings,
      is_text-eq _ _ (and_left _ _ commits),
      is_text-eq _ _ (and_right _ _ commits),
      clean,
      (eq_iff _ _).0 same,
    )

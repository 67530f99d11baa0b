-- ===== src/Engine/Permitted.antt =====
-- The guards of the steps through the loops of `execute` in engine/runtime-engine.ts.
use dokion.Base.{
  false, not, Bool-cases, inl, inr, ◌==◌, eq_iff, arith, Option, some, none, String, List, [], ◌∷◌,
  ◌≡◌, refl, Result, ok, err, Fault, plain_error, dokion_error, playbook_tainted, Exec, lift, ◌>>=◌,
  All, Triple, Triple-bind, Triple-post, Triple-if, Triple-pre, Keeps, Keeps-bind, Post, Post-world,
}
use dokion.Model.Playbook.{PlaybookStage, PlaybookStep, LoadedPlaybook}
use dokion.Model.State.{DokionState, StepState}
use dokion.World.{Host, World, load, ask, tick}
use dokion.World.Revision.{At, load-View}
use dokion.Applicability.{evaluate_applicability}
use dokion.Engine.Guards.{assert_step_dependencies}
use dokion.Engine.States.{find_step_state}
use dokion.Engine.Events.{
  assert_playbook_unchanged, read_playbook, mark_step_inapplicable, mark_tainted,
  InapplicableOutcome,
}
use dokion.Engine.Step.{
  is_closed_step, attempt, run_unchanged, after_digest_check, run_step, StepOutcome, next_step,
  next_stage, return,
}
use dokion.Engine.Loop.{
  after_step, after_stage, run_steps, after_steps, run_applicable_stage, after_stage_inapplicable,
  run_stage, complete, run_stages, execute,
}
use dokion.Engine.Quiet.{
  Calls, view_rules, load-Calls, update_state-Calls, mark_tainted-Calls,
  mark_step_inapplicable-Calls, mark_stage_inapplicable-Calls, after_inapplicable-Calls,
  evaluate_applicability-View, evaluate_applicability-Q,
}
use dokion.Engine.Permit.{
  Permitted, Allowed, Safe, Verified, require_none-eq-ok, start_applicable-Permitted,
}

Triple-lift_then :
    {S A B : Type 0} {P : S → Type 0} {Q : B → S → Type 0} {E : Fault → S → Type 0} (r : Result A)
    (f : A → Exec S B)
    → ((e : Fault) (w : S) → P w → E e w)
    → ((a : A) → r ≡ ok a → Triple P (f a) Q E)
    → Triple P (lift r >>= f) Q E
unfolding ◌>>=◌
Triple-lift_then (ok a) f bad good = record { at = λ w p. (good a refl).at w p }
Triple-lift_then (err e) f bad good = record { at = λ w p. bad e w p }

module _ (h : Host) (loaded : LoadedPlaybook) where
  module _ (stage : PlaybookStage) (step : PlaybookStep) where
    At-Calls :
        (s : DokionState) (w : World) → At (Allowed h loaded) s w → Calls (Allowed h loaded) w
    At-Calls s w v = record { holds = v.holds.1 }

    Verified-tick :
        (s : DokionState) (w : World)
        → Verified h loaded stage step s w
        → Verified h loaded stage step s (tick w)
    unfolding tick
    Verified-tick s w (v, u) = (
      record { holds = v.holds },
      record {
        at = u.at;
        raw = u.raw;
        text = u.text;
        digest = u.digest;
        earlier = omega (arith, u.earlier);
      },
    )

    run_unchanged-Permitted :
        (s : DokionState) (before : StepState)
        → find_step_state s stage.id step.id ≡ ok before
        → is_closed_step before.status ≡ false
        → Safe h loaded
            (Verified h loaded stage step s)
            (run_unchanged h loaded stage step s before)
    unfolding run_unchanged assert_step_dependencies
    run_unchanged-Permitted s before found open_before =
        Triple-lift_then (assert_step_dependencies step s) _ (λ e w v. At-Calls s w v.0)
          (λ _ met.
            Triple-bind {Q = λ _. Verified h loaded stage step s} (evaluate_applicability h _ _ _) _
              (Triple-post _ (λ a w v. v) (λ e w v. At-Calls s w v.0)
                (evaluate_applicability-Q h (Verified-tick s) _ _ _))
              (λ result.
                Triple-if (not result.applicable) _ _
                  (λ _.
                    Triple-pre _ (λ w v. At-Calls s w v.0)
                      (Keeps-bind (mark_step_inapplicable h stage step result.reason) _
                        (mark_step_inapplicable-Calls h stage step result.reason)
                        (λ o. after_inapplicable-Calls h loaded stage step o)))
                  (λ _.
                    start_applicable-Permitted h loaded stage step s before found open_before
                      (require_none-eq-ok _ met))))

    -- what the check of the digest has shown where it passes
    Verdict : DokionState → Result (Unit {0}) → World → Type 0
    Verdict s (ok u) w = Verified h loaded stage step s w
    Verdict s (err e) w = At (Allowed h loaded) s w

    Verdict-Calls :
        (s : DokionState) (checked : Result (Unit {0})) (w : World)
        → Verdict s checked w
        → Calls (Allowed h loaded) w
    unfolding Verdict
    Verdict-Calls s (ok u) w v = At-Calls s w v.0
    Verdict-Calls s (err e) w v = At-Calls s w v

    assert_playbook_unchanged-Verdict :
        (s : DokionState)
        → Triple
            (At (Allowed h loaded) s)
            (attempt (assert_playbook_unchanged h loaded))
            (Verdict s)
            (λ _. Calls (Allowed h loaded))
    unfolding Verdict attempt assert_playbook_unchanged read_playbook ask tick ◌>>=◌
    assert_playbook_unchanged-Verdict s = record {
      at = λ w v. on_text w v (h.playbook_text w.clock) refl;
    }
      where
        on_text :
            (w : World)
            → At (Allowed h loaded) s w
            → (text : Option String) → h.playbook_text w.clock ≡ text
            → Post
                (Verdict s)
                (λ _. Calls (Allowed h loaded))
                (attempt (assert_playbook_unchanged h loaded) w)
        on_text w v none e = rw e (record { holds = v.holds })
        on_text w v (some raw) e = elim (Bool-cases (h.codec.sha256 raw == loaded.digest)) [
          | inl t ↦
              rw (e, t)
                (
                  record { holds = v.holds },
                  record {
                    at = w.clock;
                    raw = raw;
                    text = e;
                    digest = (eq_iff (h.codec.sha256 raw) loaded.digest).0 t;
                    earlier = omega arith;
                  },
                )
          | inr n ↦ rw (e, n) (record { holds = v.holds })
        ]

    after_digest_check-Permitted :
        (s : DokionState) (before : StepState) (checked : Result (Unit {0}))
        → find_step_state s stage.id step.id ≡ ok before
        → is_closed_step before.status ≡ false
        → Safe h loaded
            (Verdict s checked)
            (after_digest_check h loaded stage step s before checked)
    unfolding after_digest_check Verdict
    after_digest_check-Permitted s before (ok u) found open_before =
        run_unchanged-Permitted s before found open_before
    after_digest_check-Permitted s before (err (playbook_tainted observed)) found open_before =
        Triple-pre _ (λ w v. At-Calls s w v)
          (Keeps-bind (mark_tainted h s observed step.id) _
            (mark_tainted-Calls h s observed step.id) (λ t. search view_rules))
    after_digest_check-Permitted s before (err (dokion_error e)) found open_before =
        Triple-pre _ (λ w v. At-Calls s w v) (search view_rules)
    after_digest_check-Permitted s before (err (plain_error e)) found open_before =
        Triple-pre _ (λ w v. At-Calls s w v) (search view_rules)

    run_step-Permitted : Keeps (Calls (Allowed h loaded)) (run_step h loaded stage step)
    unfolding run_step
    run_step-Permitted =
        Triple-bind {Q = λ s. At (Allowed h loaded) s} (load h) _
          (Triple-post _ (λ s w v. v) (λ e w v. v) (load-View h))
          (λ s.
            Triple-lift_then (find_step_state s stage.id step.id) _ (λ e w v. At-Calls s w v)
              (λ before found.
                Triple-if (is_closed_step before.status) _ _
                  (λ _. Triple-pre _ (λ w v. At-Calls s w v) (search view_rules))
                  (λ open_before.
                    Triple-bind {Q = Verdict s} (attempt (assert_playbook_unchanged h loaded)) _
                      (assert_playbook_unchanged-Verdict s)
                      (λ checked.
                        after_digest_check-Permitted s before checked found open_before))))

  abbrev Ok : {A : Type 0} → Exec World A → Type 0
  Ok m = Keeps (Calls (Allowed h loaded)) m

  module _ (stage : PlaybookStage) where
    after_step-Permitted :
        (o : StepOutcome) (rest : Exec World StepOutcome) → Ok rest → Ok (after_step o rest)
    after_step-Permitted next_step rest k = k
    after_step-Permitted next_stage rest k = search view_rules
    after_step-Permitted (return s) rest k = search view_rules

    run_steps-Permitted : (steps : List PlaybookStep) → Ok (run_steps h loaded stage steps)
    unfolding run_steps
    run_steps-Permitted [] = search view_rules
    run_steps-Permitted (step ∷ steps) =
        Keeps-bind (run_step h loaded stage step) _ (run_step-Permitted stage step)
          (λ o. after_step-Permitted o (run_steps h loaded stage steps) (run_steps-Permitted steps))

    after_steps-Permitted : (o : StepOutcome) → Ok (after_steps h loaded stage o)
    unfolding after_steps
    after_steps-Permitted next_step = search (view_rules, update_state-Calls)
    after_steps-Permitted next_stage = search view_rules
    after_steps-Permitted (return s) = search view_rules

    run_applicable_stage-Permitted : Ok (run_applicable_stage h loaded stage)
    unfolding run_applicable_stage
    run_applicable_stage-Permitted =
        search (view_rules, update_state-Calls, run_steps-Permitted, after_steps-Permitted)

    after_stage_inapplicable-Permitted :
        (o : InapplicableOutcome) → Ok (after_stage_inapplicable h loaded o)
    after_stage_inapplicable-Permitted InapplicableOutcome.stop_run =
        search (view_rules, load-Calls)
    after_stage_inapplicable-Permitted InapplicableOutcome.stop_stage = search view_rules
    after_stage_inapplicable-Permitted InapplicableOutcome.continue = search view_rules

    run_stage-Permitted : Ok (run_stage h loaded stage)
    unfolding run_stage
    run_stage-Permitted =
        search
          (
            view_rules, load-Calls, evaluate_applicability-View, mark_stage_inapplicable-Calls,
            after_stage_inapplicable-Permitted, run_applicable_stage-Permitted,
          )
          depth 12

  complete-Permitted : Ok (complete h loaded)
  unfolding complete
  complete-Permitted = search (view_rules, update_state-Calls)

  after_stage-Permitted :
      (o : StepOutcome) (rest : Exec World DokionState) → Ok rest → Ok (after_stage o rest)
  after_stage-Permitted next_step rest k = k
  after_stage-Permitted next_stage rest k = k
  after_stage-Permitted (return s) rest k = search view_rules

  run_stages-Permitted : (stages : List PlaybookStage) → Ok (run_stages h loaded stages)
  unfolding run_stages
  run_stages-Permitted [] = complete-Permitted
  run_stages-Permitted (stage ∷ stages) =
      Keeps-bind (run_stage h loaded stage) _ (run_stage-Permitted stage)
        (λ o. after_stage-Permitted o (run_stages h loaded stages) (run_stages-Permitted stages))

  execute-Permitted : Ok (execute h loaded)
  unfolding execute
  execute-Permitted = run_stages-Permitted loaded.playbook.stages

  -- The engine starts a capability or a verification only where the playbook permits it: whatever
  -- the host answers, and whether `execute` returns or throws, if every invocation before it was
  -- permitted, then so is every invocation after it, the new ones with it. Permitted is an
  -- invocation whose step has all its dependencies complete in the state that it is given, whose
  -- step that state records as verified, with the file of the playbook read before the time of the
  -- record and found to have the digest that the playbook was loaded with, and which is a fix or has
  -- the approval that its policy asks for.
  pub execute-invoked :
      (w : World)
      → All (Permitted h loaded) w.invoked
      → All (Permitted h loaded) (execute h loaded w).1.invoked
  execute-invoked w before =
      (Post-world (Calls (Allowed h loaded)) (execute h loaded w)
        (execute-Permitted.at w (record { holds = before }))).holds

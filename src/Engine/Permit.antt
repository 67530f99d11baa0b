-- ===== src/Engine/Permit.antt =====
-- The guards of the loop over the steps in `execute` of engine/runtime-engine.ts, up to the start of
-- a capability or a verification.
use dokion.Base.{
  ℕ, String, Bool, true, false, not, ◌&&◌, ◌<◌, sym, subst, List, [], ◌∷◌, some, ◌≡◌, refl, ap, ◌∙◌,
  Result, ok, err, Fault, Exec, lift, ◌⊎◌, inl, inr, All, Post, Triple, Triple-bind, Triple-pre,
  Triple-post, Triple-lift, Triple-if, Keeps, Keeps-bind,
}
use dokion.Model.Playbook.{
  analyze, fix_with_approval, fix_automatically, ExecutionMode, PlaybookStage, PlaybookStep,
  LoadedPlaybook,
}
use dokion.Model.State.{DokionState, StepState, ExecutionStatus, Time}
use dokion.World.{Host, World, Invocation, update_state, append, now, tick, note_invocation}
use dokion.World.Revision.{View, At, Written, append-View, update_state-View}
use dokion.Engine.Guards.{
  unmet, completed_step_ids, require_none, is_dependency_complete, next_execution_attempt,
}
use dokion.Engine.States.{find_step_state, find_stage_state}
use dokion.Engine.Marks.{start_step}
use dokion.Engine.Step.{
  attempt, step_approval_satisfied, is_fix, is_closed_step, run_verification_only, run_by_mode,
  run_mode, start_applicable,
}
use dokion.Engine.Completed.{with_step-completed}
use dokion.Engine.Quiet.{Calls, view_rules, await_approval-Calls, settle-Calls}

-- The file .dokion/playbook.json, read before the given time, had the digest that it was loaded with.
pub record Unchanged (h : Host) (loaded : LoadedPlaybook) (before : Time) : Type 0 where
  pub at : Time
  pub raw : String
  pub text : h.playbook_text at ≡ some raw
  pub digest : h.codec.sha256 raw ≡ loaded.digest
  pub earlier : at < before

-- What the engine's guards promise of an invocation: in the state that it is given, every dependency
-- of the step is complete; the step is the one that the state records as verified, and before the
-- time of that record the playbook was read with its digest; and a step that is no fix has the
-- approval that its policy asks for.
pub record Permitted (h : Host) (loaded : LoadedPlaybook) (i : Invocation) : Type 0 where
  pub dependencies : unmet (completed_step_ids i.given) i.step.depends_on ≡ []
  pub checked : i.given.playbook.last_verified_before_step ≡ some i.step.id
  pub unchanged : Unchanged h loaded i.given.playbook.verified_at
  pub approved :
      (step_approval_satisfied i.step loaded i.given ≡ true) ⊎ (is_fix i.step.mode ≡ true)

pub Triple-known :
    {S A F : Type 0} {P : S → Type 0} {Q : A → S → Type 0} {E : Fault → S → Type 0} (m : Exec S A)
    → ((w : S) → P w → F)
    → (F → Triple P m Q E)
    → Triple P m Q E
Triple-known m fact k = record { at = λ w p. (k (fact w p)).at w p }

pub attempt-Keeps :
    {A : Type 0} {P : World → Type 0} (m : Exec World A) → Keeps P m → Keeps P (attempt m)
unfolding attempt
attempt-Keeps {A} {P} m k = record { at = λ w p. settle_attempt (m w) (k.at w p) }
  where
    settle_attempt : (r : Result A × World) → Post (λ _. P) (λ _. P) r → P r.1
    settle_attempt (ok a, w) p = p
    settle_attempt (err e, w) p = p

-- the two lists of finished statuses are one
is_closed_step-eq : (e : ExecutionStatus) → is_dependency_complete e ≡ is_closed_step e
is_closed_step-eq ExecutionStatus.succeeded = refl
is_closed_step-eq ExecutionStatus.skipped_inapplicable = refl
is_closed_step-eq ExecutionStatus.skipped_by_user = refl
is_closed_step-eq ExecutionStatus.stopped_by_policy = refl
is_closed_step-eq _ = refl

pub require_none-eq-ok : (xs : List String) → require_none xs ≡ ok tt → xs ≡ []
require_none-eq-ok [] h = refl
require_none-eq-ok (x ∷ xs) h = cc

abbrev pub Allowed : Host → LoadedPlaybook → List Invocation → Type 0
Allowed h loaded xs = All (Permitted h loaded) xs

-- from `P`, nothing but allowed invocations, whether the call returns or throws
abbrev pub Safe : {A : Type 0} → Host → LoadedPlaybook → (World → Type 0) → Exec World A → Type 0
Safe h loaded P m = Triple P m (λ _. Calls (Allowed h loaded)) (λ _. Calls (Allowed h loaded))

module _ (h : Host) (loaded : LoadedPlaybook) (stage : PlaybookStage) (step : PlaybookStep) where
  note-Calls :
      (i : Invocation) → Permitted h loaded i → Keeps (Calls (Allowed h loaded)) (note_invocation i)
  unfolding note_invocation
  note-Calls i p = record { at = λ w v. record { holds = (p, v.holds) } }

  run_verification_only-Calls :
      (t : DokionState) → Keeps (Calls (Allowed h loaded)) (run_verification_only h stage step t)
  unfolding run_verification_only
  run_verification_only-Calls t = search view_rules

  run_by_mode-Calls :
      (mode : ExecutionMode) (t : DokionState)
      → Keeps (Calls (Allowed h loaded)) (run_by_mode h mode stage step t)
  unfolding run_by_mode
  run_by_mode-Calls analyze t = search view_rules
  run_by_mode-Calls fix_with_approval t = search view_rules
  run_by_mode-Calls fix_automatically t = search view_rules
  run_by_mode-Calls _ t = run_verification_only-Calls t

  run_mode-Calls :
      (t : DokionState)
      → Permitted h loaded (record { stage = stage; step = step; given = t })
      → Keeps (Calls (Allowed h loaded)) (run_mode h stage step t)
  unfolding run_mode
  run_mode-Calls t p =
      Keeps-bind (note_invocation _) _ (note-Calls _ p) (λ _. run_by_mode-Calls step.mode t)

  -- what holds of the state that a started step has been written to
  start-Permitted :
      (s t : DokionState) (before : StepState) (tried at : ℕ)
      → find_step_state s stage.id step.id ≡ ok before
      → is_closed_step before.status ≡ false
      → unmet (completed_step_ids s) step.depends_on ≡ []
      → Written (start_step stage.id step.id tried at) s t
      → Unchanged h loaded at
      → (step_approval_satisfied step loaded t ≡ true) ⊎ (is_fix step.mode ≡ true)
      → Permitted h loaded (record { stage = stage; step = step; given = t })
  unfolding completed_step_ids find_step_state find_stage_state
  start-Permitted s t before tried at found open_before met (p, changed, next) unchanged approved =
      let (same, checked) =
        with_step-completed step.id _ (λ x. refl) stage.id _ p before found
          (is_closed_step-eq before.status ∙ open_before) changed in
      let ids : completed_step_ids t ≡ completed_step_ids s = ap completed_step_ids next ∙ same in
      record {
        dependencies = ap (λ ids. unmet ids step.depends_on) ids ∙ met;
        checked =
            ap (λ q. q.playbook.last_verified_before_step) next
            ∙ ap (λ b. b.last_verified_before_step) checked;
        unchanged =
            subst (Unchanged h loaded)
              (sym (ap (λ q. q.playbook.verified_at) next ∙ ap (λ b. b.verified_at) checked))
              unchanged;
        approved = approved;
      }

  permission : (b c : Bool) → (not b && not c) ≡ false → (b ≡ true) ⊎ (c ≡ true)
  permission true c h = inl refl
  permission false true h = inr refl
  permission false false h = cc

  abbrev Started : DokionState → StepState → ℕ → Time → DokionState → World → Type 0
  Started s before tried at t = View (λ stored xs.
      (stored ≡ some t) × Written (start_step stage.id step.id tried at) s t × Allowed h loaded xs)

  Started-Calls :
      (s t : DokionState) (before : StepState) (tried at : ℕ) (w : World)
      → Started s before tried at t w
      → Calls (Allowed h loaded) w
  Started-Calls s t before tried at w v = record { holds = v.holds.2 }

  -- the state is stored, and the playbook was read with its digest before the present time
  abbrev pub Verified : DokionState → World → Type 0
  Verified s w = At (Allowed h loaded) s w × Unchanged h loaded w.clock

  pub Verified-Calls : (s : DokionState) (w : World) → Verified s w → Calls (Allowed h loaded) w
  Verified-Calls s w (v, u) = record { holds = v.holds.1 }

  now-Unchanged :
      (s : DokionState)
      → Triple
          (Verified s)
          now
          (λ at w. At (Allowed h loaded) s w × Unchanged h loaded at)
          (λ _. Calls (Allowed h loaded))
  unfolding now tick
  now-Unchanged s = record { at = λ w (v, u). (record { holds = v.holds }, u) }

  pub start_applicable-Permitted :
      (s : DokionState) (before : StepState)
      → find_step_state s stage.id step.id ≡ ok before
      → is_closed_step before.status ≡ false
      → unmet (completed_step_ids s) step.depends_on ≡ []
      → Safe h loaded (Verified s) (start_applicable h loaded stage step before)
  unfolding start_applicable
  start_applicable-Permitted s before found open_before met =
      Triple-bind {Q = λ _. Verified s} (lift (next_execution_attempt before)) _
        (Triple-lift _ (λ a _ w v. v) (λ e _ w v. Verified-Calls s w v))
        (λ tried.
          Triple-bind {Q = λ at w. At (Allowed h loaded) s w × Unchanged h loaded at} now _
            (now-Unchanged s)
            (λ at.
              Triple-known _ (λ w v. v.1)
                (λ unchanged.
                  Triple-pre _ (λ w v. v.0)
                    (Triple-bind {Q = λ t. Started s before tried at t}
                      (update_state h (start_step stage.id step.id tried at)) _
                      (Triple-post (update_state h (start_step stage.id step.id tried at))
                        (λ t w v. v) (λ e w v. record { holds = v.holds.1 })
                        (update_state-View h (start_step stage.id step.id tried at) s))
                      (λ t.
                        Triple-bind {Q = λ _. Started s before tried at t} (append h _) _
                          (Triple-post (append h _) (λ a w v. v)
                            (λ e w v. Started-Calls s t before tried at w v) (append-View h _))
                          (λ _.
                            Triple-known _ (λ w v. v.holds.1)
                              (λ (written : Written (start_step stage.id step.id tried at) s t).
                                Triple-pre _ (λ w v. Started-Calls s t before tried at w v)
                                  (Triple-if _ _ _ (λ _. search (view_rules, await_approval-Calls))
                                    (λ allowed.
                                      Keeps-bind (attempt (run_mode h stage step t)) _
                                        (attempt-Keeps _ (
                                          run_mode-Calls t (
                                            start-Permitted s t before tried at found open_before
                                              met written unchanged (permission _ _ allowed))))
                                        (λ r. settle-Calls h stage step loaded r))))))))))

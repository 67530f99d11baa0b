-- ===== src/Engine/Quiet.antt =====
-- The actions of engine/runtime-engine.ts that change the state and the journal, and what has been
-- started on the host.
use dokion.Base.{
  Bool, true, false, List, [], ◌∷◌, Option, none, some, String, ◌≡◌, refl, Result, ok, err, Fault,
  Exec, pure, throw, lift, gets, ◌>>=◌, ◌>>◌, Option-cases, if◌then◌else◌, not, Keeps, Post, Triple,
  Triple-bind, Keeps-bind, Keeps-if, Keeps-drop, keeps_rules, inl, inr,
}
use dokion.Applicability.{
  path_pattern_matches, first_path, evaluate_applicability, evaluate_exist, evaluate_absent,
}
use dokion.Model.Json.{Json}
use dokion.Model.State.{Time, DokionState, RepositoryIdentityDifference}
use dokion.Model.Playbook.{
  Applicability, DokionPlatform, PlaybookStage, PlaybookStep, LoadedPlaybook,
}
use dokion.World.{
  Host, World, Invocation, ask, tick, load, update_state, CapabilityStatus, CapabilityRunResult,
  succeeded, awaiting_approval, failed,
}
use dokion.World.Revision.{
  View, ask-View, now-View, report-View, append-View, load-View, update_state-View,
  update_state-cases, update_state-missing,
}
use dokion.Engine.Marks.{Partial}
use dokion.Engine.Events.{
  InapplicableOutcome, mark_tainted, mark_stale, mark_stage_inapplicable, mark_step_inapplicable,
  await_approval, fail_step,
}
use dokion.Engine.Step.{settle, settle_result, after_inapplicable}

pub ruleset view_rules = (keeps_rules, ask-View, now-View, report-View, append-View)

Post-answer :
    {A : Type 0} (Q : World → Type 0) (r : Result A) (w : World)
    → Q w
    → Post (λ _. Q) (λ _. Q) (r, w)
Post-answer Q (ok a) w q = q
Post-answer Q (err e) w q = q

-- The conditions on the file system and the profile look and change nothing but the clock: they keep
-- what each tick keeps.
module _ (h : Host) {Q : World → Type 0} (ticks : (w : World) → Q w → Q (tick w)) where
  ask-Q : {A : Type 0} (f : Time → Result A) → Keeps Q (ask f)
  unfolding ask
  ask-Q f = record { at = λ w q. Post-answer Q (f w.clock) (tick w) (ticks w q) }

  path_pattern_matches-Q : (pattern : String) → Keeps Q (path_pattern_matches h pattern)
  unfolding path_pattern_matches
  path_pattern_matches-Q pattern = search (keeps_rules, ask-Q)

  first_path-Q : (wanted : Bool) (patterns : List String) → Keeps Q (first_path h wanted patterns)
  unfolding first_path
  first_path-Q wanted [] = search keeps_rules
  first_path-Q wanted (p ∷ ps) =
      Keeps-bind (path_pattern_matches h p) _ (path_pattern_matches-Q p) (λ found.
        Keeps-if (if wanted then found else not found) (first_path h wanted ps)
          (pure {S = World} {A = Option String} (some p)) (first_path-Q wanted ps)
          (search keeps_rules))

  evaluate_absent-Q :
      (p : DokionPlatform) (profile : List (String × Json)) (a : Applicability) (o : Option String)
      → Keeps Q (evaluate_absent h p profile a o)
  evaluate_absent-Q p profile a none = search keeps_rules
  evaluate_absent-Q p profile a (some k) = search keeps_rules

  evaluate_exist-Q :
      (p : DokionPlatform) (profile : List (String × Json)) (a : Applicability) (o : Option String)
      → Keeps Q (evaluate_exist h p profile a o)
  evaluate_exist-Q p profile a none = search (keeps_rules, first_path-Q, evaluate_absent-Q)
  evaluate_exist-Q p profile a (some k) = search keeps_rules

  pub evaluate_applicability-Q :
      (p : DokionPlatform) (profile : List (String × Json)) (a : Option Applicability)
      → Keeps Q (evaluate_applicability h p profile a)
  unfolding evaluate_applicability
  evaluate_applicability-Q p profile none = search keeps_rules
  evaluate_applicability-Q p profile (some a) = search (keeps_rules, first_path-Q, evaluate_exist-Q)

module _ (h : Host) {P : Option DokionState → List Invocation → Type 0} where
  pub evaluate_applicability-View :
      (p : DokionPlatform) (profile : List (String × Json)) (a : Option Applicability)
      → Keeps (View P) (evaluate_applicability h p profile a)
  unfolding tick
  evaluate_applicability-View p profile a =
      evaluate_applicability-Q h (λ w v. record { holds = v.holds }) p profile a

-- A condition on what has been started, whatever is stored.
abbrev pub Calls : (List Invocation → Type 0) → World → Type 0
Calls I = View (λ _ xs. I xs)

module _ (h : Host) {I : List Invocation → Type 0} where
  pub load-Calls : Keeps (Calls I) (load h)
  load-Calls =
      Keeps-drop (load h) (λ s w v. record { holds = v.holds.1 }) (λ e w v. v) (load-View h)

  Post-update_state :
      (m : DokionState → Result DokionState) (o : Option DokionState) (w : World)
      → w.stored ≡ o
      → Calls I w
      → Post (λ _. Calls I) (λ _. Calls I) (update_state h m w)
  Post-update_state m none w e v = rw (update_state-missing h m w e) v
  Post-update_state m (some s) w e v = elim (update_state-cases h m w s e) [
    | inl (f, same) ↦ rw same v
    | inr (t, written, same) ↦ rw same (record { holds = v.holds })
  ]

  pub update_state-Calls :
      (m : DokionState → Result DokionState) → Keeps (Calls I) (update_state h m)
  update_state-Calls m = record { at = λ w v. Post-update_state m w.stored w refl v }

  pub mark_tainted-Calls :
      (s : DokionState) (observed step : String) → Keeps (Calls I) (mark_tainted h s observed step)
  unfolding mark_tainted
  mark_tainted-Calls s observed step = search (view_rules, update_state-Calls)

  pub mark_stale-Calls :
      (s : DokionState) (ds : List RepositoryIdentityDifference)
      → Keeps (Calls I) (mark_stale h s ds)
  unfolding mark_stale
  mark_stale-Calls s ds = search (view_rules, update_state-Calls)

  pub mark_stage_inapplicable-Calls :
      (stage : PlaybookStage) (reason : String)
      → Keeps (Calls I) (mark_stage_inapplicable h stage reason)
  unfolding mark_stage_inapplicable
  mark_stage_inapplicable-Calls stage reason = search (view_rules, update_state-Calls)

  pub mark_step_inapplicable-Calls :
      (stage : PlaybookStage) (step : PlaybookStep) (reason : String)
      → Keeps (Calls I) (mark_step_inapplicable h stage step reason)
  unfolding mark_step_inapplicable
  mark_step_inapplicable-Calls stage step reason = search (view_rules, update_state-Calls)

  module _ (stage : PlaybookStage) (step : PlaybookStep) (loaded : LoadedPlaybook) where
    pub await_approval-Calls :
        (subject : String) (p : Partial)
        → Keeps (Calls I) (await_approval h stage step loaded subject p)
    unfolding await_approval
    await_approval-Calls subject p = search (view_rules, update_state-Calls)

    fail_step-Calls :
        (reason : String) (p : Partial) → Keeps (Calls I) (fail_step h stage step loaded reason p)
    unfolding fail_step
    fail_step-Calls reason p = search (view_rules, update_state-Calls)

    settle_result-Calls :
        (status : CapabilityStatus) (r : CapabilityRunResult)
        → Keeps (Calls I) (settle_result h loaded stage step status r)
    unfolding settle_result
    settle_result-Calls (awaiting_approval subject) r = search (view_rules, await_approval-Calls)
    settle_result-Calls (failed reason) r = search (view_rules, fail_step-Calls)
    settle_result-Calls succeeded r = search (view_rules, update_state-Calls)

    pub settle-Calls :
        (r : Result CapabilityRunResult) → Keeps (Calls I) (settle h loaded stage step r)
    unfolding settle
    settle-Calls (err e) = search (view_rules, fail_step-Calls)
    settle-Calls (ok r) = settle_result-Calls r.status r

  pub after_inapplicable-Calls :
      (loaded : LoadedPlaybook) (stage : PlaybookStage) (step : PlaybookStep)
      (o : InapplicableOutcome)
      → Keeps (Calls I) (after_inapplicable h loaded stage step o)
  after_inapplicable-Calls loaded stage step InapplicableOutcome.stop_run =
      search (view_rules, load-Calls)
  after_inapplicable-Calls loaded stage step InapplicableOutcome.stop_stage = search view_rules
  after_inapplicable-Calls loaded stage step InapplicableOutcome.continue = search view_rules

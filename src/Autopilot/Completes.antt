-- ===== src/Autopilot/Completes.antt =====
-- The whole loop of `runAutopilot`, with a state and without one.
use dokion.Base.{
  ℕ, suc, zero, ◌+◌, ◌<◌, String, Bool, true, false, ◌||◌, List, [], ◌∷◌, ◌++◌, Option, none, some,
  ◌≡◌, ◌≢◌, refl, sym, ap, ◌∙◌, ◌⊎◌, inl, inr, includes, All, arith, ◌==◌, eq_refl, flat_map,
}
use dokion.Model.State.{DokionState, StageState}
use dokion.Policy.{evaluate_approval_boundary}
use dokion.Autopilot.NextAction.{
  ActionStep, MinimalPlaybook, ActionSpec, playbook_completed, NextActionResult, action_selected,
  stop_reason, succeeded_ids, succeeded_in, first_open, stop_of, select_in_steps,
  select_next_action,
}
use dokion.Autopilot.Turns.{
  push_first, mark_completed, turn_approval, take_turn, run_turns, run_autopilot,
  AutopilotRunResult,
}
use dokion.Autopilot.Progress.{
  Within, InOrder, open_count, first_open-Progress, includes-append, succeeded_in-pushed,
}

abbrev pub pushed : String → DokionState → DokionState
pushed k s = record s { stages = push_first k s.stages }

or_pushed : (a b e : Bool) → ((a || b) ≡ true) ⊎ (e ≡ true) → ((a || (e || false)) || b) ≡ true
or_pushed true b e h = refl
or_pushed false b true h = refl
or_pushed false b false (inl h) = h
or_pushed false b false (inr h) = cc

includes-pushed :
    (k j : String) (stages : List StageState)
    → stages ≢ []
    → (includes j (flat_map (λ t. succeeded_in t.steps) stages) ≡ true) ⊎ ((k == j) ≡ true)
    → includes j (flat_map (λ t. succeeded_in t.steps) (push_first k stages)) ≡ true
includes-pushed k j [] some_stage h = absurd (some_stage refl)
includes-pushed k j (t ∷ ts) some_stage h =
    let own = succeeded_in t.steps in
    let rest = flat_map (λ t. succeeded_in t.steps) ts in
    let split = includes-append j own rest in
    let h' : ((includes j own || includes j rest) ≡ true) ⊎ ((k == j) ≡ true) = elim h [
      | inl old ↦ inl (sym split ∙ old)
      | inr new_one ↦ inr new_one
    ] in
    ap (λ xs. includes j (xs ++ rest)) (succeeded_in-pushed k t.steps)
    ∙ includes-append j (own ++ k ∷ []) rest
    ∙ ap (λ b. b || includes j rest) (includes-append j own (k ∷ []))
    ∙ or_pushed (includes j own) (includes j rest) (k == j) h'

push_first-ne-nil : (k : String) (stages : List StageState) → stages ≢ [] → push_first k stages ≢ []
push_first-ne-nil k [] h e = h e
push_first-ne-nil k (t ∷ ts) h e = cc

select-first_open :
    (s : DokionState) (p : MinimalPlaybook)
    → p.steps ≢ []
    → stop_of s.run.status ≡ none
    → select_next_action (some s) (some p) ≡ first_open s.revision (succeeded_ids s) p.steps
unfolding select_next_action select_in_steps
select-first_open s p some_step goes = by_steps p.steps some_step
  where
    by_steps :
        (steps : List ActionStep)
        → steps ≢ []
        → select_in_steps (some s) steps ≡ first_open s.revision (succeeded_ids s) steps
    by_steps [] e = absurd (e refl)
    by_steps (x ∷ xs) e = rw goes refl

mark_completed-pushed :
    (k : String) (s : DokionState)
    → (k == "") ≡ false
    → mark_completed k (some s) ≡ some (pushed k s)
unfolding mark_completed
mark_completed-pushed k s e = rw e refl

turn_allowed : (b : Bool) → (evaluate_approval_boundary (turn_approval b)).allowed ≡ true
unfolding evaluate_approval_boundary
turn_allowed true = refl
turn_allowed false = refl

module _ (p : MinimalPlaybook) (b : Bool) (some_step : p.steps ≢ [])
    (named : All (λ s. (s.id == "") ≡ false) p.steps) where
  -- one turn that selects an action goes on with the action's step completed
  turn-selected :
      (turns n : ℕ) (s : DokionState) (a : ActionSpec) (revision : ℕ)
      (before : Option NextActionResult)
      → select_next_action (some s) (some p) ≡ action_selected a revision
      → (a.step_id == "") ≡ false
      → run_turns p false b (suc turns) n (some s) before
        ≡ run_turns p false b turns
            (n + 1)
            (some (pushed a.step_id s))
            (some (action_selected a revision))
  unfolding run_turns
  turn-selected turns n s a revision before selected id =
      ap
        (λ r.
          take_turn p false b n (some s) r
            (λ c. run_turns p false b turns (n + 1) (mark_completed c.step_id (some s)) (some r)))
        selected
      ∙ rw (turn_allowed b) (
          ap (λ t. run_turns p false b turns (n + 1) t (some (action_selected a revision)))
            (mark_completed-pushed a.step_id s id))

  turn-completed :
      (turns n : ℕ) (s : DokionState) (revision : Option ℕ) (before : Option NextActionResult)
      → select_next_action (some s) (some p) ≡ stop_reason playbook_completed revision
      → (run_turns p false b (suc turns) n (some s) before).completed ≡ true
  unfolding run_turns
  turn-completed turns n s revision before stops =
      ap
        (λ r.
          (take_turn p false b n (some s) r (λ c.
            run_turns p false b turns (n + 1) (mark_completed c.step_id (some s))
              (some r))).completed)
        stops

  run_turns-completed :
      (done : List String) (turns n : ℕ) (s : DokionState) (before : Option NextActionResult)
      → s.stages ≢ []
      → stop_of s.run.status ≡ none
      → InOrder done p.steps
      → Within done (succeeded_ids s)
      → open_count (succeeded_ids s) p.steps < turns
      → (run_turns p false b turns n (some s) before).completed ≡ true
  run_turns-completed done zero n s before st goes o w few = absurd (omega (arith, few))
  run_turns-completed done (suc turns) n s before st goes o w few =
      let chosen = select-first_open s p some_step goes in
      elim (first_open-Progress s.revision done (succeeded_ids s) p.steps w o named) [
        | inl all_done ↦ turn-completed turns n s _ before (chosen ∙ all_done)
        | inr (a, selected, progress) ↦
            let next = pushed a.step_id s in
            let kept : Within (succeeded_ids s) (succeeded_ids next) =
              λ k h. includes-pushed a.step_id k s.stages st (inl h) in
            let added : includes a.step_id (succeeded_ids next) ≡ true =
              includes-pushed a.step_id a.step_id s.stages st (inr (eq_refl a.step_id)) in
            let fewer = progress.fewer (succeeded_ids next) kept added in
            ap (λ r. r.completed)
              (turn-selected turns n s a s.revision before (chosen ∙ selected) progress.named)
            ∙ run_turns-completed done turns (n + 1) next _
                (push_first-ne-nil a.step_id s.stages st) goes o (λ k h. kept k (w k h))
                (omega (arith, few, fewer))
      ]

  -- The autopilot completes a run that may go on: if the playbook's steps stand in an order in which
  -- each depends only on steps that have succeeded or stand before it, have names and are not none,
  -- the run has a stage, and there are more turns than steps that have not succeeded, then
  -- `runAutopilot` outside a dry run reports completion.
  pub run_autopilot-completed :
      (max_turns : ℕ) (s : DokionState)
      → s.stages ≢ []
      → stop_of s.run.status ≡ none
      → InOrder (succeeded_ids s) p.steps
      → open_count (succeeded_ids s) p.steps < max_turns
      → (run_autopilot p false b max_turns (some s)).completed ≡ true
  unfolding run_autopilot
  run_autopilot-completed max_turns s st goes o few =
      run_turns-completed (succeeded_ids s) max_turns 0 s none st goes o (λ k h. h) few

take_turn-fresh :
    (p : MinimalPlaybook) (dry b : Bool) (n : ℕ) (r : NextActionResult)
    (rest : ActionSpec → AutopilotRunResult)
    → ((revision : Option ℕ) → r ≢ stop_reason playbook_completed revision)
    → ((a : ActionSpec) → (rest a).completed ≡ false)
    → (take_turn p dry b n none r rest).completed ≡ false
take_turn-fresh p dry b n (stop_reason playbook_completed v) rest other h = absurd (other v refl)
take_turn-fresh p dry b n (stop_reason _ v) rest other h = refl
take_turn-fresh p true b n (action_selected a v) rest other h = refl
take_turn-fresh p false b n (action_selected a v) rest other h = rw (turn_allowed b) (h a)

select_next_action-fresh :
    (p : MinimalPlaybook) (revision : Option ℕ)
    → select_next_action none (some p) ≢ stop_reason playbook_completed revision
unfolding select_next_action select_in_steps
select_next_action-fresh p revision = by_steps p.steps
  where
    by_steps :
        (steps : List ActionStep)
        → select_in_steps none steps ≢ stop_reason playbook_completed revision
    by_steps [] e = cc
    by_steps (x ∷ xs) e = cc

run_turns-fresh :
    (p : MinimalPlaybook) (dry b : Bool) (turns n : ℕ) (before : Option NextActionResult)
    → (run_turns p dry b turns n none before).completed ≡ false
unfolding run_turns mark_completed
run_turns-fresh p dry b zero n before = refl
run_turns-fresh p dry b (suc turns) n before =
    take_turn-fresh p dry b n (select_next_action none (some p)) _ (select_next_action-fresh p)
      (λ a. run_turns-fresh p dry b turns (n + 1) _)

-- Without a state the autopilot never completes, however many turns it has: it selects the first
-- step again on each turn.
pub run_autopilot-fresh :
    (p : MinimalPlaybook) (dry_run approval : Bool) (max_turns : ℕ)
    → (run_autopilot p dry_run approval max_turns none).completed ≡ false
unfolding run_autopilot
run_autopilot-fresh p dry b max_turns = run_turns-fresh p dry b max_turns 0 none

-- ===== src/Engine/Resumed.antt =====
-- `resume` of engine/runtime-engine.ts on runs that are not to go on.
use dokion.Base.{
  Post-weaken, String, Bool, true, false, not, List, some, ◌≡◌, ◌≢◌, refl, sym, ap, ◌∙◌, Result, ok,
  err, lift, Post, Triple, Triple-bind, Triple-post, Triple-pre, Triple-if, Triple-pure, ◌==◌,
}
use dokion.Model.Playbook.{LoadedPlaybook}
use dokion.Model.State.{DokionState, RunStatus, Time}
use dokion.World.{Host, World, Invocation, load, update_state, append, now}
use dokion.World.Revision.{View, Written, now-View, append-View, load-View, update_state-View}
use dokion.Engine.Guards.{assert_sequential_execution}
use dokion.Engine.Marks.{tainted_state}
use dokion.Engine.Events.{mark_tainted}
use dokion.Engine.Loop.{is_over, continue_loaded}
use dokion.Engine.Permit.{Triple-known}
use dokion.Engine.Quiet.{Calls, view_rules}

module _ (h : Host) (s : DokionState) (started : List Invocation) where
  -- the state is `s`, and what was started is `started`
  abbrev Same : World → Type 0
  Same = View (λ stored xs. (stored ≡ some s) × (xs ≡ started))

  stored-eq : (t : DokionState) → some t ≡ some s → t ≡ s
  stored-eq t e = cc

  -- what `load` gives is `s`
  load-Same :
      Triple Same
        (load h)
        (λ t. View (λ stored xs. (t ≡ s) × ((stored ≡ some s) × (xs ≡ started))))
        (λ _. Same)
  load-Same =
      Triple-post (load h)
        (λ t w v. record { holds = (stored-eq t (sym v.holds.0 ∙ v.holds.1.0), v.holds.1) })
        (λ e w v. v) (load-View h)

module _ (h : Host) (s : DokionState) (started : List Invocation) where
  abbrev Tainted : DokionState → World → Type 0
  Tainted t =
      View (λ stored xs. (stored ≡ some t) × (t.run.status ≡ RunStatus.tainted) × (xs ≡ started))

  abbrev Quiet : World → Type 0
  Quiet = Calls (λ xs. xs ≡ started)

  abbrev status_of : Result DokionState → RunStatus
  status_of (ok t) = t.run.status
  status_of (err e) = RunStatus.running

  tainted-Written :
      (observed before : String) (at : Time) (t : DokionState)
      → Written (tainted_state observed before at) s t
      → t.run.status ≡ RunStatus.tainted
  tainted-Written observed before at t (p, changed, next) =
      ap (λ q. q.run.status) next ∙ sym (ap status_of changed)

  not_over : (r : RunStatus) → is_over r ≡ false → is_over r ≢ true
  not_over r going over = cc

  not_equal : (b : Bool) → b ≡ false → not b ≢ false
  not_equal b e k = cc

  mark_tainted-Tainted :
      (q : DokionState) (observed before : String)
      → Triple (Same h s started) (mark_tainted h q observed before) Tainted (λ _. Quiet)
  unfolding mark_tainted
  mark_tainted-Tainted q observed before =
      Triple-bind {Q = λ _. Same h s started} now _
        (Triple-post now (λ a w v. v) (λ e w v. record { holds = v.holds.1 }) now-View)
        (λ at.
          Triple-bind {Q = Tainted} (update_state h (tainted_state observed before at)) _
            (Triple-post (update_state h (tainted_state observed before at))
              (λ t w v. record {
                holds = (v.holds.0, tainted-Written observed before at t v.holds.1, v.holds.2);
              })
              (λ e w v. record { holds = v.holds.1 })
              (update_state-View h (tainted_state observed before at) s))
            (λ t.
              Triple-bind {Q = λ _. Tainted t} (append h _) _
                (Triple-post (append h _) (λ a w v. v) (λ e w v. record { holds = v.holds.2 })
                  (append-View h _))
                (λ _. Triple-pure t (λ w v. v))))

  continue_loaded-Tainted :
      (loaded : LoadedPlaybook)
      → is_over s.run.status ≡ false
      → (s.playbook.digest == loaded.digest) ≡ false
      → Triple (Same h s started) (continue_loaded h loaded) Tainted (λ _. Quiet)
  unfolding continue_loaded
  continue_loaded-Tainted loaded going changed =
      Triple-bind {Q = λ _. Same h s started} (lift (assert_sequential_execution loaded.playbook)) _
        (Triple-post {Q = λ _. Same h s started} {E = λ _. Same h s started}
          (lift (assert_sequential_execution loaded.playbook)) (λ a w v. v)
          (λ e w v. record { holds = v.holds.1 }) (search view_rules))
        (λ _.
          Triple-bind (load h) _
            (Triple-post (load h) (λ t w v. v) (λ e w v. record { holds = v.holds.1 })
              (load-Same h s started))
            (λ t.
              Triple-known _ (λ w v. v.holds.0)
                (λ (same : t ≡ s).
                  Triple-pre {P' = Same h s started} _ (λ w v. record { holds = v.holds.1 })
                    (Triple-if (is_over t.run.status) _ _
                      (λ over.
                        absurd (
                          not_over t.run.status (ap (λ q. is_over q.run.status) same ∙ going) over))
                      (λ _.
                        Triple-if (not (t.playbook.digest == loaded.digest)) _ _
                          (λ _. mark_tainted-Tainted t loaded.digest "resume")
                          (λ equal. absurd (
                            not_equal (t.playbook.digest == loaded.digest)
                              (ap (λ q. q.playbook.digest == loaded.digest) same ∙ changed)
                              equal)))))))

-- A run is not continued under another playbook: if the digest of the playbook that was loaded is
-- not the one in the state of a run that is not over, then nothing is started, and if the call
-- returns, the run that it returns and stores is TAINTED.
pub continue_loaded-changed :
    (h : Host) (loaded : LoadedPlaybook) (w : World) (s : DokionState)
    → w.stored ≡ some s
    → is_over s.run.status ≡ false
    → (s.playbook.digest == loaded.digest) ≡ false
    → Post
        (λ t w'.
          (w'.stored ≡ some t) × (t.run.status ≡ RunStatus.tainted) × (w'.invoked ≡ w.invoked))
        (λ _ w'. w'.invoked ≡ w.invoked)
        (continue_loaded h loaded w)
continue_loaded-changed h loaded w s e going changed =
    Post-weaken _ _ _ _ (continue_loaded h loaded w) (λ t w' v. v.holds) (λ f w' v. v.holds)
      ((continue_loaded-Tainted h s w.invoked loaded going changed).at w
        (record { holds = (e, refl) }))

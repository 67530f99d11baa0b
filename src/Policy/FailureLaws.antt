-- ===== src/Policy/FailureLaws.antt =====
-- policy/failure-policy.ts: what a failure leads to.
use dokion.Base.{ap, ◌<◌, ◌≡◌, refl, ◌↔◌, ◌⊎◌, inl, inr, ◌≢◌, ◌or◌, arith, ltb, Bool-cases}
use dokion.Model.Playbook.{FailurePolicy}
use dokion.Model.State.{RunStatus, ExecutionStatus}
use dokion.Policy.Failure.{FailureContext, retry, by_policy, evaluate_failure_transition}

by_policy-running :
    (p : FailurePolicy)
    → (by_policy p).next_run_status ≡ RunStatus.running
    → p ≡ FailurePolicy.continue
by_policy-running FailurePolicy.stop_pipeline h = cc
by_policy-running FailurePolicy.stop_stage h = cc
by_policy-running FailurePolicy.continue h = refl
by_policy-running FailurePolicy.request_user_decision h = cc
by_policy-running FailurePolicy.mark_blocked h = cc

by_policy-ends :
    (p : FailurePolicy)
    → ((by_policy p).next_step_status ≢ ExecutionStatus.in_progress)
      × ((by_policy p).action ≢ retry)
by_policy-ends FailurePolicy.stop_pipeline = ((λ h. cc), (λ h. cc))
by_policy-ends FailurePolicy.stop_stage = ((λ h. cc), (λ h. cc))
by_policy-ends FailurePolicy.continue = ((λ h. cc), (λ h. cc))
by_policy-ends FailurePolicy.request_user_decision = ((λ h. cc), (λ h. cc))
by_policy-ends FailurePolicy.mark_blocked = ((λ h. cc), (λ h. cc))

on_continue :
    {F : Type 0} (p : FailurePolicy)
    → ¬ F
    → F ⊎ (p ≡ FailurePolicy.continue)
    → (by_policy p).next_run_status ≡ RunStatus.running
on_continue p refuted (inl f) = absurd (refuted f)
on_continue p refuted (inr e) = ap (λ q. (by_policy q).next_run_status) e

-- After a failure the run goes on exactly if attempts are left or the policy is CONTINUE; the step
-- is tried again, and is in progress, exactly if attempts are left.
pub evaluate_failure_transition_lem :
    (c : FailureContext)
    → (((evaluate_failure_transition c).next_run_status ≡ RunStatus.running)
        ↔ (((c.attempts or 1) < (c.max_attempts or 1)) ⊎ (c.policy ≡ FailurePolicy.continue)))
      × (((evaluate_failure_transition c).action ≡ retry)
          ↔ ((c.attempts or 1) < (c.max_attempts or 1)))
      × (((evaluate_failure_transition c).next_step_status ≡ ExecutionStatus.in_progress)
          ↔ ((c.attempts or 1) < (c.max_attempts or 1)))
unfolding evaluate_failure_transition
evaluate_failure_transition_lem c =
    elim (Bool-cases (ltb (c.attempts or 1) (c.max_attempts or 1))) [
      | inl left ↦
          let more : (c.attempts or 1) < (c.max_attempts or 1) = ground arith in
          rw left
            (((λ _. inl more), (λ _. refl)), ((λ _. more), (λ _. refl)), ((λ _. more), (λ _. refl)))
      | inr spent ↦
          let over : ¬ ((c.attempts or 1) < (c.max_attempts or 1)) = λ more. ground arith in
          let (status, action) = by_policy-ends c.policy in
          rw spent (
            ((λ h. inr (by_policy-running c.policy h)), (λ s. on_continue c.policy over s)),
            ((λ h. absurd (action h)), (λ more. absurd (over more))),
            ((λ h. absurd (status h)), (λ more. absurd (over more))),
          )
    ]

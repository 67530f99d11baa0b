-- ===== src/Locks/WaitingLaws.antt =====
-- state/state-store.ts and state/event-log.ts: the loops on the lock files end.
use dokion.Base.{
  ℕ, zero, suc, ◌+◌, ◌-◌, ◌*◌, ◌≤◌, ◌≡◌, ◌≢◌, refl, sym, ap, subst, ◌∙◌, Bool, true, false, leb,
  Result, ok, err, arith, inl, inr, ◌⊎◌, Bool-cases, eq_refl, Exec, Fault, ErrorCode, dokion_error,
}
use dokion.Locks.Record.{Process, LockFile, absent, unreadable, holds}
use dokion.Locks.Waiting.{
  StateTransitionLockRecord, read_transition_lock, transition_json, transition_lock_is_dead,
  append_lock_is_dead, Wait, created, deadline_passed, out_of_fuel, wait_for_lock,
  wait_for_transition_lock, wait_for_append_lock, Guarded, is_owner, assert_ownership, remove_own,
  is_absent, confirm, under_transition_lock,
}

-- from attempt `from` on, no attempt finds the lock of a dead process, and sleeps of 5 ms pass
-- between the attempts
pub record Paced (is_dead : LockFile → Bool) (found : ℕ → LockFile) (clock : ℕ → ℕ)
    (entered from : ℕ) : Type 0 where
  pub none_dead : (n : ℕ) → is_dead (found (from + n)) ≡ false
  pub sleeps : (n : ℕ) → clock (from + n) + 5 ≤ clock (from + (n + 1))
  pub later : entered ≤ clock from

true-ne-false : true ≢ false
true-ne-false h = cc

module _ (is_dead : LockFile → Bool) (found : ℕ → LockFile) (clock : ℕ → ℕ) (deadline : ℕ) where
  -- a loop that runs out of fuel has been at each attempt before the deadline or at a dead lock
  out_of_fuel-round :
      (fuel n : ℕ)
      → wait_for_lock is_dead found clock deadline (suc fuel) n ≡ out_of_fuel
      → (wait_for_lock is_dead found clock deadline fuel (n + 1) ≡ out_of_fuel)
        × ((is_dead (found n) ≡ true) ⊎ (clock n + 1 ≤ deadline))
  unfolding wait_for_lock
  out_of_fuel-round fuel n h = ground (arith, h)

  -- what is left of the loop after `k` rounds
  out_of_fuel-after :
      (k fuel n m total : ℕ)
      → total ≡ k + fuel
      → m ≡ n + k
      → wait_for_lock is_dead found clock deadline total n ≡ out_of_fuel
      → wait_for_lock is_dead found clock deadline fuel m ≡ out_of_fuel
  out_of_fuel-after zero fuel n m total e f h =
      subst (λ t. wait_for_lock is_dead found clock deadline t m ≡ out_of_fuel) (omega arith)
        (subst (λ t. wait_for_lock is_dead found clock deadline total t ≡ out_of_fuel) (omega arith)
          h)
  out_of_fuel-after (suc k) fuel n m zero e f h = absurd (omega arith)
  out_of_fuel-after (suc k) fuel n m (suc total) e f h =
      out_of_fuel-after k fuel (n + 1) m total (omega arith) (omega arith)
        (out_of_fuel-round total n h).0

module _ (is_dead : LockFile → Bool) (found : ℕ → LockFile) (clock : ℕ → ℕ) (entered from : ℕ) where
  clock_after :
      Paced is_dead found clock entered from → (n : ℕ) → entered + 5 * n ≤ clock (from + n)
  clock_after p zero =
      let first : from ≡ from + 0 = omega arith in
      subst (λ m. entered + 5 * 0 ≤ clock m) first (omega (arith, p.later))
  clock_after p (suc n) =
      let next : from + (n + 1) ≡ from + suc n = omega arith in
      subst (λ m. entered + 5 * suc n ≤ clock m) next (omega (arith, p.sleeps n, clock_after p n))

  pub wait_for_lock_ends :
      Paced is_dead found clock entered from
      → (fuel : ℕ) → from + 401 ≤ fuel
      → wait_for_lock is_dead found clock (entered + 2000) fuel 0 ≢ out_of_fuel
  wait_for_lock_ends p fuel enough h =
      let stopped : wait_for_lock is_dead found clock (entered + 2000) (suc (fuel - (from + 401)))
            (from + 400)
          ≡ out_of_fuel =
        out_of_fuel-after is_dead found clock (entered + 2000) (from + 400)
          (suc (fuel - (from + 401))) 0 (from + 400) fuel (omega arith) (omega arith) h in
      elim (out_of_fuel-round is_dead found clock (entered + 2000) (fuel - (from + 401))
        (from + 400) stopped).1 [
          | inl dead ↦ absurd (true-ne-false (sym dead ∙ p.none_dead 400))
          | inr early ↦ omega (arith, clock_after p 400, early)
        ]

is_absent-eq : (l : LockFile) → is_absent l ≡ true → l ≡ absent
is_absent-eq absent h = refl
is_absent-eq unreadable h = cc
is_absent-eq (holds v) h = cc

not_absent : (l : LockFile) → is_absent l ≡ false → l ≢ absent
not_absent l f e = true-ne-false (sym (ap is_absent e) ∙ f)

-- How a loop has ended: it has created the file where there was none, or it has given up at the
-- deadline with the file still there.
abbrev pub Ended : (ℕ → LockFile) → (ℕ → ℕ) → ℕ → Wait → Type 0
Ended found clock deadline (created n) = found n ≡ absent
Ended found clock deadline (deadline_passed n) = (found n ≢ absent) × (deadline ≤ clock n)
Ended found clock deadline out_of_fuel = ⊥

module _ (is_dead : LockFile → Bool) (found : ℕ → LockFile) (clock : ℕ → ℕ) (deadline : ℕ) where
  -- the same of a loop that may have stopped for want of fuel
  wait_for_lock-Ended :
      (fuel n : ℕ) (r : Wait)
      → wait_for_lock is_dead found clock deadline fuel n ≡ r
      → r ≢ out_of_fuel
      → Ended found clock deadline r
  unfolding wait_for_lock
  wait_for_lock-Ended zero n r h ne = absurd (ne (sym h))
  wait_for_lock-Ended (suc fuel) n r h ne = elim (Bool-cases (is_absent (found n))) [
    | inl t ↦
        subst (Ended found clock deadline) (rw (wait_for_lock, t) at h) (is_absent-eq (found n) t)
    | inr f ↦ elim (Bool-cases (is_dead (found n))) [
      | inl t ↦ wait_for_lock-Ended fuel (n + 1) r (rw (wait_for_lock, f, t) at h) ne
      | inr alive ↦ elim (Bool-cases (leb deadline (clock n))) [
        | inl t ↦
            subst (Ended found clock deadline) (rw (wait_for_lock, f, alive, t) at h)
              (not_absent (found n) f, ground (arith, t))
        | inr early ↦
            wait_for_lock-Ended fuel (n + 1) r (rw (wait_for_lock, f, alive, early) at h) ne
      ]
    ]
  ]

-- If no attempt from `from` on finds the lock of a process that is gone, and at least 5 ms pass between
-- two attempts, then the loop of `withTransitionLock` ends within `from + 401` attempts: it creates the
-- lock file where there is none, or it throws at the deadline of 2 s while the file is there.
pub wait_for_transition_lock_ends :
    (p : Process) (found : ℕ → LockFile) (clock : ℕ → ℕ) (entered from fuel : ℕ)
    → Paced (transition_lock_is_dead p) found clock entered from
    → from + 401 ≤ fuel
    → Ended found clock (entered + 2000) (wait_for_transition_lock p found clock entered fuel)
unfolding wait_for_transition_lock
wait_for_transition_lock_ends p found clock entered from fuel paced enough =
    wait_for_lock-Ended (transition_lock_is_dead p) found clock (entered + 2000) fuel 0 _ refl
      (wait_for_lock_ends (transition_lock_is_dead p) found clock entered from paced fuel enough)

-- The loop of `withAppendLock` ends likewise.
pub wait_for_append_lock_ends :
    (p : Process) (found : ℕ → LockFile) (clock : ℕ → ℕ) (entered from fuel : ℕ)
    → Paced (append_lock_is_dead p) found clock entered from
    → from + 401 ≤ fuel
    → Ended found clock (entered + 2000) (wait_for_append_lock p found clock entered fuel)
unfolding wait_for_append_lock
wait_for_append_lock_ends p found clock entered from fuel paced enough =
    wait_for_lock-Ended (append_lock_is_dead p) found clock (entered + 2000) fuel 0 _ refl
      (wait_for_lock_ends (append_lock_is_dead p) found clock entered from paced fuel enough)

pub is_owner-transition_json :
    (mine : StateTransitionLockRecord) → is_owner mine (holds (transition_json mine)) ≡ true
unfolding read_transition_lock transition_json
is_owner-transition_json mine = eq_refl mine.owner_token

-- `out` is how a call ends whose action has ended as `r`
abbrev pub GuardedOutcome :
    {T A : Type 0}
    → StateTransitionLockRecord
    → Result A × Guarded T
    → Result A × Guarded T
    → Type 0
GuardedOutcome mine r out =
    ((is_owner mine r.1.lock ≡ true) × (out ≡ (r.0, record r.1 { lock = absent })))
    ⊎ ((is_owner mine r.1.lock ≡ false) × (e : Fault) × (out ≡ (err e, r.1)))

-- Under the transition lock, an action after which the lock file is still the lease's own gives its own
-- result, and the file is removed. Where the file is not the lease's own any more, the call throws, also
-- if the action has returned, and the file that another process put there stays.
pub under_transition_lock_lem :
    {T A : Type 0} (mine : StateTransitionLockRecord) (action : Exec (Guarded T) A) (w : Guarded T)
    → GuardedOutcome mine
        (action (record w { lock = holds (transition_json mine) }))
        (under_transition_lock mine action w)
unfolding under_transition_lock assert_ownership
under_transition_lock_lem {T} {A} mine action w =
    let (r, w') = action (record w { lock = holds (transition_json mine) }) in ended r w'
  where
    ended :
        (r : Result A) (w' : Guarded T)
        → GuardedOutcome mine
            (r, w')
            (
              confirm r (assert_ownership mine w'.lock),
              record w' { lock = remove_own mine w'.lock },
            )
    ended (ok a) w' = elim (Bool-cases (is_owner mine w'.lock)) [
      | inl own ↦ inl (own, rw (is_owner, own) refl)
      | inr other ↦
          inr (other, dokion_error ErrorCode.state_write_locked, rw (is_owner, other) refl)
    ]
    ended (err e) w' = elim (Bool-cases (is_owner mine w'.lock)) [
      | inl own ↦ inl (own, rw (is_owner, own) refl)
      | inr other ↦ inr (other, e, rw (is_owner, other) refl)
    ]

-- ===== src/Readiness/Passed.antt =====
-- readiness/release-gates.ts: when a gate passes.
use dokion.Base.{
  ℕ, ◌+◌, String, Bool, true, false, not, ◌&&◌, List, [], ◌∷◌, Option, none, some, ◌or◌, ◌==◌, ◌≡◌,
  ◌≢◌, ◌↔◌, refl, sym, subst, ap, ◌∙◌, ◌⊎◌, inl, inr, Bool-cases, Option-cases, Result-cases, eqb,
  arith, eq_iff, Result, ok, err, Fault,
}
use dokion.Model.Playbook.{ReleaseGateDefinition}
use dokion.Model.State.{GateStatus, ReleaseGateState}
use dokion.Readiness.Criteria.{gate_by_id, is_pass, gate_passed, last_with}
use dokion.Readiness.Gates.{
  GatesHost, GatesInput, condition_of, condition_passed, status_of, command_result, run_gate,
  pushed, reuse_or_run, evaluate_gate, gates_from, evaluate_release_gates,
}
use dokion.Readiness.Conditions.{Holds, condition_passed-Holds}

-- what lets the gate at position `n` pass
abbrev pub MayPass : GatesHost → GatesInput → ℕ → ReleaseGateDefinition → Type 0
MayPass h i n g = elim g.command [
  | some command ↦
      ((i.force_rerun ≡ false)
        × (r : ReleaseGateState) × (gate_by_id i.state g.id ≡ some r)
        × (r.status ≡ GateStatus.pass))
      ⊎ (h.run_command n command ≡ ok 0)
  | none ↦ elim g.condition [ some text ↦ Holds i (condition_of h i text) | none ↦ ⊥ ]
]

status_of-pass :
    (h : GatesHost) (i : GatesInput) (b : Bool) → (status_of h i b ≡ GateStatus.pass) ↔ (b ≡ true)
status_of-pass h i true = (λ _. refl, λ _. refl)
status_of-pass h i false = (λ e. cc, λ e. cc)

-- the result of the gate at position `n`
abbrev pub Judged : GatesHost → GatesInput → ℕ → ReleaseGateDefinition → ReleaseGateState → Type 0
Judged h i n g r = (r.id ≡ g.id) × ((r.status ≡ GateStatus.pass) ↔ MayPass h i n g)

-- The gate's command is run, since it has not passed before or the run is forced, and `runCommand` throws.
abbrev pub Throws : GatesHost → GatesInput → ℕ → ReleaseGateDefinition → Fault → Type 0
Throws h i n g e = elim g.command [
  | some command ↦
      (h.run_command n command ≡ err e)
      × ((i.force_rerun ≡ true)
          ⊎ ((r : ReleaseGateState)
              → gate_by_id i.state g.id ≡ some r
              → r.status ≢ GateStatus.pass))
  | none ↦ ⊥
]

-- The outcome of the gates from position `n` on: one result for each, in order, or the fault of the first gate that
-- throws, after gates that do not.
abbrev pub AllJudged :
    GatesHost
    → GatesInput
    → ℕ
    → List ReleaseGateDefinition
    → Result (List ReleaseGateState)
    → Type 0
AllJudged h i n [] rs = rs ≡ ok []
AllJudged h i n (g ∷ gs) (ok []) = ⊥
AllJudged h i n (g ∷ gs) (ok (r ∷ rs)) =
    Judged h i n g r × ((f : Fault) → ¬ Throws h i n g f) × AllJudged h i (n + 1) gs (ok rs)
AllJudged h i n (g ∷ gs) (err e) =
    Throws h i n g e ⊎ (((f : Fault) → ¬ Throws h i n g f) × AllJudged h i (n + 1) gs (err e))

iff_trans : {A B C : Type 0} → A ↔ B → B ↔ C → A ↔ C
iff_trans f g = (λ a. g.0 (f.0 a), λ c. f.1 (g.1 c))

is_pass-eq : (s : GateStatus) → (is_pass s ≡ true) ↔ (s ≡ GateStatus.pass)
is_pass-eq GateStatus.pass = (λ _. refl, λ _. refl)
is_pass-eq GateStatus.fail = (λ e. cc, λ e. cc)
is_pass-eq GateStatus.not_run = (λ e. cc, λ e. cc)
is_pass-eq GateStatus.skipped = (λ e. cc, λ e. cc)

id-last_with :
    (id : String) (gs : List ReleaseGateState) (r : ReleaseGateState)
    → last_with (λ g. g.id == id) gs ≡ some r
    → r.id ≡ id
id-last_with id [] r e = cc
id-last_with id (g ∷ gs) r e = elim (Option-cases (last_with (λ x. x.id == id) gs)) [
  | inr (q, k) ↦ id-last_with id gs r (k ∙ rw k at e)
  | inl k ↦ ground (arith, rw k at e, eq_iff g.id id)
]

both_true : (a b : Bool) → not a && b ≡ true → (a ≡ false) × (b ≡ true)
both_true false b h = (refl, h)
both_true true b h = cc

some-ne-none : {A : Type 0} {a : A} → some a ≢ none
some-ne-none e = cc

ok-ne-err : {n : ℕ} {f : Fault} → ◌≢◌ {A = Result ℕ} (ok n) (err f)
ok-ne-err e = cc

code_of : {a b : ℕ} → ◌≡◌ {A = Result ℕ} (ok a) (ok b) → a ≡ b
code_of e = cc

-- what one gate gives: a result, without a throw, or what its command throws
GateOutcome : GatesHost → GatesInput → ℕ → ReleaseGateDefinition → Result ReleaseGateState → Type 0
GateOutcome h i n g (ok r) = Judged h i n g r × ((f : Fault) → ¬ Throws h i n g f)
GateOutcome h i n g (err e) = Throws h i n g e

Reused : GatesInput → ReleaseGateDefinition → Type 0
Reused i g =
    (i.force_rerun ≡ false)
    × (r : ReleaseGateState) × (gate_by_id i.state g.id ≡ some r)
    × (r.status ≡ GateStatus.pass)

module _ (h : GatesHost) (i : GatesInput) (n : ℕ) (g : ReleaseGateDefinition)
    (command : String) where
  abbrev with_command : ReleaseGateDefinition
  with_command = record g { command = some command }

  -- a gate that has to be run
  run_gate-GateOutcome :
      ¬ Reused i g
      → ((i.force_rerun ≡ true)
          ⊎ ((r : ReleaseGateState)
              → gate_by_id i.state g.id ≡ some r
              → r.status ≢ GateStatus.pass))
      → GateOutcome h i n with_command (run_gate h i n with_command command)
  unfolding GateOutcome Reused
  run_gate-GateOutcome fresh due = elim (Result-cases (h.run_command n command)) [
    | inl (code, e) ↦
        subst (GateOutcome h i n with_command) (sym (ap (command_result h i with_command) e)) (
          (
            refl,
            (
              λ k. inr (e ∙ ap ok (ground (arith, (status_of-pass h i (eqb code 0)).0 k))),
              λ k. elim k [
                | inl reused ↦ absurd (fresh reused)
                | inr z ↦ (status_of-pass h i (eqb code 0)).1 (zero_code code (sym e ∙ z))
              ],
            ),
          ),
          λ f (thrown, _). absurd (ok-ne-err (sym e ∙ thrown)),
        )
    | inr (fault, e) ↦
        subst (GateOutcome h i n with_command) (sym (ap (command_result h i with_command) e))
          (e, due)
  ]
    where
      zero_code : (code : ℕ) → ◌≡◌ {A = Result ℕ} (ok code) (ok 0) → eqb code 0 ≡ true
      zero_code code e = ground (arith, code_of e)

  reuse_or_run-GateOutcome :
      (o : Option ReleaseGateState)
      → gate_by_id i.state g.id ≡ o
      → GateOutcome h i n with_command (reuse_or_run h i n with_command command o)
  unfolding GateOutcome Reused
  reuse_or_run-GateOutcome none e =
      run_gate-GateOutcome (λ (_, r, f, _). absurd (some-ne-none (sym f ∙ e)))
        (inr (λ r f p. absurd (some-ne-none (sym f ∙ e))))
  reuse_or_run-GateOutcome (some r) e = elim (Bool-cases (not i.force_rerun && is_pass r.status)) [
    | inl t ↦
        let (not_forced, passed) = both_true i.force_rerun (is_pass r.status) t in
        let recorded = (is_pass-eq r.status).0 passed in
        rw t (
          (
            id-last_with g.id (i.state.release_gates or []) r e,
            (λ _. inl (not_forced, r, e, recorded), λ _. recorded),
          ),
          λ f (_, due). elim due [
            | inl forced ↦ cc (forced, not_forced)
            | inr other ↦ other r e recorded
          ],
        )
    | inr f ↦ rw f (
        run_gate-GateOutcome
          (λ (not_forced, q, j, recorded). unused q (sym j ∙ e) not_forced recorded f) (due f))
  ]
    where
      unused :
          (q : ReleaseGateState)
          → some q ≡ some r
          → i.force_rerun ≡ false
          → q.status ≡ GateStatus.pass
          → ¬ (not i.force_rerun && is_pass r.status ≡ false)
      unused q same not_forced recorded f =
          ground (arith, f, not_forced, (is_pass-eq q.status).1 recorded, ap gate_passed same)

      due :
          not i.force_rerun && is_pass r.status ≡ false
          → (i.force_rerun ≡ true)
            ⊎ ((q : ReleaseGateState)
                → gate_by_id i.state g.id ≡ some q
                → q.status ≢ GateStatus.pass)
      due f = elim (Bool-cases i.force_rerun) [
        | inl forced ↦ inl forced
        | inr not_forced ↦ inr (λ q j recorded. unused q (sym j ∙ e) not_forced recorded f)
      ]

evaluate_gate-GateOutcome :
    (h : GatesHost) (i : GatesInput) (n : ℕ) (g : ReleaseGateDefinition)
    → GateOutcome h i n g (evaluate_gate h i n g)
unfolding evaluate_gate GateOutcome
evaluate_gate-GateOutcome h i n g = by_fields g.command g.condition
  where
    with_fields : Option String → Option String → ReleaseGateDefinition
    with_fields command condition = record g { command = command; condition = condition }

    by_fields :
        (command condition : Option String)
        → GateOutcome h i n
            (with_fields command condition)
            (evaluate_gate h i n (with_fields command condition))
    by_fields none none = ((refl, (λ e. cc, λ k. elim k [ ])), λ f t. t)
    by_fields none (some text) = (
      (
        refl,
        iff_trans (status_of-pass h i (condition_passed h i (condition_of h i text)))
            (condition_passed-Holds h i (condition_of h i text)),
      ),
      λ f t. t,
    )
    by_fields (some command) condition =
        reuse_or_run-GateOutcome h i n (with_fields (some command) condition) command
          (gate_by_id i.state g.id) refl

pushed-AllJudged :
    (h : GatesHost) (i : GatesInput) (n : ℕ) (g : ReleaseGateDefinition)
    (gs : List ReleaseGateDefinition) (a : Result ReleaseGateState)
    (b : Result (List ReleaseGateState))
    → GateOutcome h i n g a
    → AllJudged h i (n + 1) gs b
    → AllJudged h i n (g ∷ gs) (pushed h i a b)
unfolding GateOutcome
pushed-AllJudged h i n g gs (ok r) (ok rs) (j, t) k = (j, t, k)
pushed-AllJudged h i n g gs (ok r) (err e) (j, t) k = inr (t, k)
pushed-AllJudged h i n g gs (err e) b t k = inl t

-- `evaluateReleaseGates` gives one result for each gate of the playbook, in order and of the same id, or it
-- throws what the first command that throws has thrown, and no command throws if it gives results. A
-- gate with a command passes exactly if its program exits with 0, or it has passed before and the run
-- is not forced; one with a condition, exactly if the run has what the condition asks for; and a gate
-- with neither does not pass.
pub evaluate_release_gates-AllJudged :
    (h : GatesHost) (i : GatesInput)
    → AllJudged h i 0 (i.playbook.release_gates or []) (evaluate_release_gates h i)
unfolding evaluate_release_gates
evaluate_release_gates-AllJudged h i = each 0 (i.playbook.release_gates or [])
  where
    each : (n : ℕ) (gs : List ReleaseGateDefinition) → AllJudged h i n gs (gates_from h i n gs)
    each n [] = refl
    each n (g ∷ gs) =
        pushed-AllJudged h i n g gs _ _ (evaluate_gate-GateOutcome h i n g) (each (n + 1) gs)

-- ===== src/Autopilot/Progress.antt =====
-- One turn of the autopilot: the steps that are open before and after it.
use dokion.Base.{
  ℕ, suc, ◌<◌, ◌≤◌, String, true, false, ◌||◌, List, [], ◌∷◌, ◌++◌, some, ◌≡◌, refl, ap, subst, ◌⊎◌,
  inl, inr, includes, every, All, arith, Bool-cases, ◌or◌, ◌==◌, eq_iff, if◌then◌else◌,
}
use dokion.Model.State.{StepState}
use dokion.Autopilot.NextAction.{
  ActionStep, ActionSpec, action_of, verify, playbook_completed, action_selected, stop_reason,
  dependencies_met, succeeded_in, is_succeeded, first_open,
}
use dokion.Autopilot.Turns.{pushed_step}

-- All of the first list is in the second.
abbrev pub Within : List String → List String → Type 0
Within xs ys = (k : String) → includes k xs ≡ true → includes k ys ≡ true

-- The steps stand in an order in which each depends only on `done` and on steps before it.
abbrev pub InOrder : List String → List ActionStep → Type 0
InOrder done [] = Unit
InOrder done (s ∷ ss) = (dependencies_met done s ≡ true) × InOrder (s.id ∷ done) ss

-- how many of the steps are not complete
abbrev pub open_count : List String → List ActionStep → ℕ
open_count done [] = 0
open_count done (s ∷ ss) =
    if includes s.id done then open_count done ss else suc (open_count done ss)

every-Within :
    (ks xs ys : List String)
    → Within xs ys
    → every (λ d. includes d xs) ks ≡ true
    → every (λ d. includes d ys) ks ≡ true
every-Within [] xs ys w h = refl
every-Within (k ∷ ks) xs ys w h =
    let here : includes k xs ≡ true = ground arith in
    let rest : every (λ d. includes d xs) ks ≡ true = ground arith in
    let here' = w k here in let rest' = every-Within ks xs ys w rest in rw (here', rest') refl

open_count-le :
    (xs ys : List String) (ss : List ActionStep)
    → Within xs ys
    → open_count ys ss ≤ open_count xs ss
open_count-le xs ys [] w = omega arith
open_count-le xs ys (s ∷ ss) w =
    let ih = open_count-le xs ys ss w in
    elim (Bool-cases (includes s.id xs)) [
      | inl old ↦ rw old (rw (w s.id old) ih)
      | inr new_one ↦ elim (Bool-cases (includes s.id ys)) [
        | inl now_in ↦ rw new_one (rw now_in (omega (arith, ih)))
        | inr still ↦ rw new_one (rw still (omega (arith, ih)))
      ]
    ]

Within-cons :
    (k : String) (xs ys : List String) → Within xs ys → includes k ys ≡ true → Within (k ∷ xs) ys
Within-cons k xs ys w h j i = elim (Bool-cases (k == j)) [
  | inl same ↦ subst (λ x. includes x ys ≡ true) ((eq_iff k j).0 same) h
  | inr other ↦ w j (rw other at i)
]

-- What the selection finds among steps that are in order: all are complete, or a step whose
-- completion leaves fewer open ones.
pub record Progress (completed : List String) (steps : List ActionStep) (a : ActionSpec)
    : Type 0 where
  pub named : (a.step_id == "") ≡ false
  pub fewer :
      (later : List String)
      → Within completed later
      → includes a.step_id later ≡ true
      → open_count later steps < open_count completed steps

pub first_open-Progress :
    (revision : ℕ) (done completed : List String) (steps : List ActionStep)
    → Within done completed
    → InOrder done steps
    → All (λ s. (s.id == "") ≡ false) steps
    → (first_open revision completed steps ≡ stop_reason playbook_completed (some revision))
      ⊎ ((a : ActionSpec) × (first_open revision completed steps ≡ action_selected a revision)
          × Progress completed steps a)
unfolding first_open
first_open-Progress revision done completed [] w o n = inl refl
first_open-Progress revision done completed (s ∷ ss) w (met, o) (n, ns) =
    elim (Bool-cases (includes s.id completed)) [
      | inl old ↦
          elim (first_open-Progress revision (s.id ∷ done) completed ss
            (Within-cons s.id done completed w old) o ns) [
              | inl all_done ↦ inl (rw old all_done)
              | inr (a, selected, p) ↦ inr (
                a,
                rw old selected,
                record {
                  named = p.named;
                  fewer = λ later v h. rw old (rw (v s.id old) (p.fewer later v h));
                },
              )
            ]
      | inr fresh ↦
          let met' = every-Within (s.depends_on or []) done completed w met in
          inr (
            action_of verify s,
            rw fresh (rw met' refl),
            record {
              named = n;
              fewer = λ later v h.
                  let ih = open_count-le completed later ss v in
                  rw fresh (rw h (omega (arith, ih)));
            },
          )
    ]

pub includes-append :
    (k : String) (xs ys : List String) → includes k (xs ++ ys) ≡ (includes k xs || includes k ys)
includes-append k [] ys = refl
includes-append k (x ∷ xs) ys = elim (Bool-cases (x == k)) [
  | inl same ↦ rw same refl
  | inr other ↦ rw other (includes-append k xs ys)
]

pub succeeded_in-pushed :
    (k : String) (ss : List StepState)
    → succeeded_in (ss ++ pushed_step k ∷ []) ≡ succeeded_in ss ++ k ∷ []
succeeded_in-pushed k [] = refl
succeeded_in-pushed k (s ∷ ss) = elim (Bool-cases (is_succeeded s.status)) [
  | inl yes_it_is ↦ rw yes_it_is (ap (λ xs. s.id ∷ xs) (succeeded_in-pushed k ss))
  | inr not_yet ↦ rw not_yet (succeeded_in-pushed k ss)
]

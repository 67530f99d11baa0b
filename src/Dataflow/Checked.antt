-- ===== src/Dataflow/Checked.antt =====
-- playbook/dataflow-contract.ts: what `validatePlaybookDataflow` accepts.
use dokion.Base.{
  numbered, ℕ, ◌+◌, ◌≡◌, ◌↔◌, refl, ap, String, List, [], ◌∷◌, map, flat_map, All, inl, inr, In,
  All-All, All-weaken, UniqueKeys, append-eq-nil, register, register-clean, register_of_unique,
}
use dokion.Model.Json.{Json, Fields, obj, null, bool, num, str, arr}
use dokion.Dataflow.Declared.{StepSite, visited_steps}
use dokion.Dataflow.{
  index_outputs, duplicate_step, index_steps, steps_by_id, typed_inputs, step_issues, record_issues,
  validate_playbook_dataflow,
}
use dokion.Dataflow.Sound.{
  Declared, Sound, SoundDocument, outputs_of, Fed, entry_of, index_outputs-clean,
  index_outputs_of_unique, entries_from-clean, UniqueKeys-numbered,
}
use dokion.Dataflow.Inputs.{input_issues-clean, input_issues_of_Fed}

flat_map-eq-nil :
    {A B : Type 0} (f : A → List B) (xs : List A) → flat_map f xs ≡ [] → All (λ x. f x ≡ []) xs
flat_map-eq-nil f [] h = tt
flat_map-eq-nil f (x ∷ xs) h =
    let (a, b) = append-eq-nil (f x) (flat_map f xs) h in (a, flat_map-eq-nil f xs b)

flat_map_nil :
    {A B : Type 0} (f : A → List B) (xs : List A) → All (λ x. f x ≡ []) xs → flat_map f xs ≡ []
flat_map_nil f [] h = refl
flat_map_nil f (x ∷ xs) (p, h) = rw (p, flat_map_nil f xs h) refl

-- a predicate that each element of the list has, told that it is an element
All-over :
    {A : Type 0} (P Q : A → Type 0) (xs : List A)
    → ((a : A) → In a xs → P a → Q a)
    → All P xs
    → All Q xs
All-over P Q [] h p = tt
All-over P Q (x ∷ xs) h (p, ps) = (h x (inl refl) p, All-over P Q xs (λ a i. h a (inr i)) ps)

All-map :
    {A B : Type 0} (P : B → Type 0) (f : A → B) (xs : List A)
    → All P (map f xs) ↔ All (λ a. P (f a)) xs
All-map P f [] = (λ h. h, λ h. h)
All-map P f (x ∷ xs) = (λ h. (h.0, (All-map P f xs).0 h.1), λ h. (h.0, (All-map P f xs).1 h.1))

All-numbered :
    {A : Type 0} (P : A → Type 0) (n : ℕ) (xs : List A)
    → All P xs
    → All (λ d. P d.1) (numbered n xs)
All-numbered P n [] h = tt
All-numbered P n (x ∷ xs) (p, h) = (p, All-numbered P (n + 1) xs h)

module _ (ds : List Declared) (unique : UniqueKeys (steps_by_id (map entry_of ds))) where
  consumers-clean :
      flat_map (step_issues (map entry_of ds)) (map entry_of ds) ≡ []
      → All (λ (d : Declared). All (Fed ds d) (typed_inputs d.1.1.value)) ds
  consumers-clean h =
      All-weaken _ _ ds
        (λ d quiet.
          All-weaken _ _ (typed_inputs d.1.1.value) (input_issues-clean ds unique d)
            (flat_map-eq-nil _ (typed_inputs d.1.1.value) quiet))
        ((All-map _ entry_of ds).0 (flat_map-eq-nil _ (map entry_of ds) h))

  consumers_of_Fed :
      All (λ (d : Declared). UniqueKeys (outputs_of d.1)) ds
      → All (λ (d : Declared). All (Fed ds d) (typed_inputs d.1.1.value)) ds
      → flat_map (step_issues (map entry_of ds)) (map entry_of ds) ≡ []
  consumers_of_Fed outputs h = flat_map_nil _ (map entry_of ds) (
      (All-map _ entry_of ds).1 (
        All-over _ _ ds
          (λ d i fed. flat_map_nil _ (typed_inputs d.1.1.value) (
            All-weaken _ _ (typed_inputs d.1.1.value)
              (λ input. input_issues_of_Fed ds unique d input outputs i) fed))
          h))

record_issues-Sound : (document : Fields) → (record_issues document ≡ []) ↔ Sound document
unfolding index_steps
record_issues-Sound document = (to_sound, of_sound)
  where
    steps : List (String × StepSite)
    steps = visited_steps document

    to_sound : record_issues document ≡ [] → Sound document
    to_sound h =
        let (indexed, quiet) =
          append-eq-nil (register (λ e. (index_outputs e).1) duplicate_step [] steps).1 _ h in
        let (_, unique, outputs, same) =
          register-clean (λ e. (index_outputs e).1) duplicate_step [] steps indexed in
        record {
          unique_ids = unique;
          unique_outputs = All-weaken _ _ steps (λ e q. (index_outputs-clean e q).0) outputs;
          fed =
              consumers-clean (numbered 0 steps) (UniqueKeys-numbered 0 steps unique)
                (rw (same, entries_from-clean 0 steps outputs) at quiet);
        }

    of_sound : Sound document → record_issues document ≡ []
    of_sound s =
        rw
          (
            register_of_unique (λ e. (index_outputs e).1) duplicate_step [] steps
                (All-All _ steps (λ _. refl)) s.unique_ids quiet,
            entries_from-clean 0 steps quiet,
          )
          (consumers_of_Fed (numbered 0 steps) (UniqueKeys-numbered 0 steps s.unique_ids)
            (All-numbered (λ e. UniqueKeys (outputs_of e)) 0 steps s.unique_outputs) s.fed)
      where
        quiet : All (λ e. (index_outputs e).1 ≡ []) steps
        quiet =
            All-weaken _ _ steps (λ e u. ap (λ r. r.1) (index_outputs_of_unique e u))
              s.unique_outputs

-- `validatePlaybookDataflow` has no issue with a document exactly if its step ids are unique, the
-- names of the typed outputs of each step are unique, and each typed input has a producer: a step
-- that is declared earlier, that `depends_on` of the consumer names, and that has an output of the
-- name and the kind asked for. A document that is no object has no issue.
pub validate_playbook_dataflow-SoundDocument :
    (document : Json) → (validate_playbook_dataflow document ≡ []) ↔ SoundDocument document
unfolding validate_playbook_dataflow
validate_playbook_dataflow-SoundDocument null = (λ _. tt, λ _. refl)
validate_playbook_dataflow-SoundDocument (bool b) = (λ _. tt, λ _. refl)
validate_playbook_dataflow-SoundDocument (num n) = (λ _. tt, λ _. refl)
validate_playbook_dataflow-SoundDocument (str s) = (λ _. tt, λ _. refl)
validate_playbook_dataflow-SoundDocument (arr vs) = (λ _. tt, λ _. refl)
validate_playbook_dataflow-SoundDocument (obj document) = record_issues-Sound document

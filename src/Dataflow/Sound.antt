-- ===== src/Dataflow/Sound.antt =====
-- playbook/dataflow-contract.ts: the documents without an issue.
use dokion.Base.{
  numbered, ℕ, ◌+◌, ◌<◌, ◌≡◌, ◌≢◌, refl, sym, ap, String, true, List, [], ◌∷◌, map, includes, All,
  inl, inr, In, All-All, UniqueKeys, register-clean, register_of_unique,
}
use dokion.Model.Json.{Json, Fields, obj}
use dokion.Dataflow.Declared.{
  StepSite, TypedOutput, TypedInput, visited_steps, declared_outputs, dependencies,
}
use dokion.Dataflow.{
  StepEntry, index_outputs, duplicate_output, entries_from, steps_by_id, typed_inputs,
}

-- a declared step, numbered in the order of the document
abbrev pub Declared : Type 0
Declared = ℕ × (String × StepSite)

abbrev pub outputs_of : String × StepSite → List (String × TypedOutput)
outputs_of e = declared_outputs e.1.path e.1.value

-- `producer` feeds the input of the step `consumer`: it is declared before it, `depends_on` names
-- it, and it has an output of the name and the kind that the input asks for.
pub record Feeds (producer consumer : Declared) (input : TypedInput) : Type 0 where
  pub named : producer.1.0 ≡ input.step
  pub before : producer.0 < consumer.0
  pub awaited : includes input.step (dependencies consumer.1.1.value) ≡ true
  pub output : TypedOutput
  pub declared : In (input.output, output) (outputs_of producer.1)
  pub same_kind : output.kind ≡ input.kind

abbrev pub Fed : List Declared → Declared → ℕ × TypedInput → Type 0
Fed steps consumer (index, input) =
    (producer : Declared) × In producer steps × Feeds producer consumer input

-- step ids are unique, the output names of each step are, and each typed input is fed
pub record Sound (document : Fields) : Type 0 where
  pub unique_ids : UniqueKeys (visited_steps document)
  pub unique_outputs : All (λ e. UniqueKeys (outputs_of e)) (visited_steps document)
  pub fed :
      All
        (λ s. All (Fed (numbered 0 (visited_steps document)) s) (typed_inputs s.1.1.value))
        (numbered 0 (visited_steps document))

-- a predicate on documents of any shape: what is no object holds nothing to check
abbrev pub SoundDocument : Json → Type 0
SoundDocument (obj document) = Sound document
SoundDocument _ = Unit

abbrev pub entry_of : Declared → StepEntry
entry_of (n, (id, site)) = record {
  id = id;
  value = site.value;
  path = site.path;
  order = n;
  outputs = outputs_of (id, site);
}

-- the names of the outputs of a step without an issue are unique, and all of them are entered
pub index_outputs-clean :
    (e : String × StepSite)
    → (index_outputs e).1 ≡ []
    → UniqueKeys (outputs_of e) × ((index_outputs e).0 ≡ outputs_of e)
index_outputs-clean (id, site) h =
    let (_, u, _, same) =
      register-clean (λ _. []) (duplicate_output id) [] (outputs_of (id, site)) h in
    (u, same)

pub index_outputs_of_unique :
    (e : String × StepSite) → UniqueKeys (outputs_of e) → index_outputs e ≡ (outputs_of e, [])
index_outputs_of_unique (id, site) u =
    register_of_unique (λ _. []) (duplicate_output id) [] (outputs_of (id, site))
      (All-All _ (outputs_of (id, site)) (λ _. refl)) u
      (All-All _ (outputs_of (id, site)) (λ _. refl))

pub entries_from-clean :
    (n : ℕ) (xs : List (String × StepSite))
    → All (λ e. (index_outputs e).1 ≡ []) xs
    → entries_from n xs ≡ map entry_of (numbered n xs)
entries_from-clean n [] h = refl
entries_from-clean n (e ∷ xs) (q, h) =
    rw ((index_outputs-clean e q).1, entries_from-clean (n + 1) xs h) refl

pub UniqueKeys-numbered :
    (n : ℕ) (xs : List (String × StepSite))
    → UniqueKeys xs
    → UniqueKeys (steps_by_id (map entry_of (numbered n xs)))
UniqueKeys-numbered n [] u = tt
UniqueKeys-numbered n ((k, a) ∷ xs) (apart, u) =
    (others k (n + 1) xs apart, UniqueKeys-numbered (n + 1) xs u)
  where
    others :
        (k : String) (n : ℕ) (xs : List (String × StepSite))
        → All (λ e. e.0 ≢ k) xs
        → All (λ e. e.0 ≢ k) (steps_by_id (map entry_of (numbered n xs)))
    others k n [] h = tt
    others k n (x ∷ xs) (ne, h) = (ne, others k (n + 1) xs h)

pub In-steps_by_id :
    (k : String) (p : StepEntry) (ds : List Declared)
    → In (k, p) (steps_by_id (map entry_of ds))
    → (d : Declared) × In d ds × (p ≡ entry_of d) × (d.1.0 ≡ k)
In-steps_by_id k p [] i = elim i [ ]
In-steps_by_id k p (d ∷ ds) (inl e) = (d, inl refl, ap (λ t. t.1) (sym e), ap (λ t. t.0) e)
In-steps_by_id k p (d ∷ ds) (inr i) =
    let (c, j, same, named) = In-steps_by_id k p ds i in (c, inr j, same, named)

pub entry_of-In :
    (d : Declared) (ds : List Declared)
    → In d ds
    → In (d.1.0, entry_of d) (steps_by_id (map entry_of ds))
entry_of-In d [] i = elim i [ ]
entry_of-In d (c ∷ ds) (inl e) = inl (ap (λ t. (t.1.0, entry_of t)) e)
entry_of-In d (c ∷ ds) (inr i) = inr (entry_of-In d ds i)

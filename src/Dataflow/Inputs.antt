-- ===== src/Dataflow/Inputs.antt =====
-- playbook/dataflow-contract.ts: the loop over the typed inputs of a step.
use dokion.Base.{
  ℕ, ◌<◌, ◌≡◌, ◌≢◌, refl, sym, ap, subst, ◌∙◌, String, List, [], ◌∷◌, map, Option, none, some, All,
  inl, inr, arith, eq_iff, eq_refl, Option-cases, In, All_In, map_get, In-map_get, map_get_of_In,
  UniqueKeys, append-eq-nil,
}
use dokion.Dataflow.Declared.{TypedOutput, TypedInput}
use dokion.Dataflow.{
  StepEntry, DataflowContractIssue, steps_by_id, output_issues, dependency_issues, producer_issues,
  input_issues,
}
use dokion.Dataflow.Sound.{Declared, outputs_of, Feeds, Fed, entry_of, In-steps_by_id, entry_of-In}

cons-ne-nil : (x : DataflowContractIssue) (xs : List DataflowContractIssue) → x ∷ xs ≢ []
cons-ne-nil x xs h = cc

output_issues-clean :
    (d : Declared) (input : TypedInput) (path : String)
    → output_issues (entry_of d) input path ≡ []
    → (output : TypedOutput) × In (input.output, output) (outputs_of d.1)
      × (output.kind ≡ input.kind)
output_issues-clean d input path h = elim (Option-cases (map_get input.output (outputs_of d.1))) [
  | inl e ↦ absurd (cons-ne-nil _ _ (rw (output_issues, e) at h))
  | inr (output, e) ↦ (
    output,
    In-map_get input.output output (outputs_of d.1) e,
    ground (arith, rw (output_issues, e) at h, eq_iff output.kind input.kind),
  )
]

output_issues_of_declared :
    (d : Declared) (input : TypedInput) (path : String) (output : TypedOutput)
    → UniqueKeys (outputs_of d.1)
    → In (input.output, output) (outputs_of d.1)
    → output.kind ≡ input.kind
    → output_issues (entry_of d) input path ≡ []
output_issues_of_declared d input path output u i e =
    rw
      (output_issues, map_get_of_In input.output output (outputs_of d.1) u i, e, eq_refl input.kind)
      refl

producer_issues-before :
    (c d : Declared) (input : TypedInput) (path : String)
    → producer_issues (entry_of c) (entry_of d) input path ≡ []
    → (d.0 < c.0)
      × (dependency_issues (entry_of c) input path ≡ [])
      × (output_issues (entry_of d) input path ≡ [])
producer_issues-before c d input path h =
    let both =
      append-eq-nil (dependency_issues (entry_of c) input path)
        (output_issues (entry_of d) input path) in
    ground (arith, h, both)

producer_issues-clean :
    (c d : Declared) (input : TypedInput) (path : String)
    → d.1.0 ≡ input.step
    → producer_issues (entry_of c) (entry_of d) input path ≡ []
    → Feeds d c input
producer_issues-clean c d input path named h =
    let (before, quiet, fed) = producer_issues-before c d input path h in
    let (output, i, e) = output_issues-clean d input path fed in
    record {
      named = named;
      before = before;
      awaited = ground (arith, quiet);
      output = output;
      declared = i;
      same_kind = e;
    }

producer_issues_of_Feeds :
    (c d : Declared) (input : TypedInput) (path : String)
    → UniqueKeys (outputs_of d.1)
    → d.1.0 ≢ c.1.0
    → Feeds d c input
    → producer_issues (entry_of c) (entry_of d) input path ≡ []
producer_issues_of_Feeds c d input path u ne f = ground (
  arith,
  f.before,
  f.awaited,
  eq_iff d.1.0 c.1.0,
  output_issues_of_declared d input path f.output u f.declared f.same_kind,
)

abbrev order_of : Option StepEntry → ℕ
order_of none = 0
order_of (some s) = s.order

module _ (ds : List Declared) (unique : UniqueKeys (steps_by_id (map entry_of ds))) where
  at_id :
      (d : Declared) → In d ds → map_get d.1.0 (steps_by_id (map entry_of ds)) ≡ some (entry_of d)
  at_id d i =
      map_get_of_In d.1.0 (entry_of d) (steps_by_id (map entry_of ds)) unique (entry_of-In d ds i)

  -- two declared steps of one id are one step
  same_order : (c d : Declared) → In c ds → In d ds → d.1.0 ≡ c.1.0 → d.0 ≡ c.0
  same_order c d i j e =
      ap (λ o. order_of o)
        (sym (at_id d j) ∙ ap (λ k. map_get k (steps_by_id (map entry_of ds))) e ∙ at_id c i)

  pub input_issues-clean :
      (c : Declared) (input : ℕ × TypedInput)
      → input_issues (map entry_of ds) (entry_of c) input ≡ []
      → Fed ds c input
  input_issues-clean c (index, input) h =
      elim (Option-cases (map_get input.step (steps_by_id (map entry_of ds)))) [
        | inl e ↦ absurd (cons-ne-nil _ _ (rw (input_issues, e) at h))
        | inr (p, e) ↦
            let (d, i, same, named) =
              In-steps_by_id input.step p ds
                (In-map_get input.step p (steps_by_id (map entry_of ds)) e) in
            (d, i, producer_issues-clean c d input _ named (rw same at (rw (input_issues, e) at h)))
      ]

  pub input_issues_of_Fed :
      (c : Declared) (input : ℕ × TypedInput)
      → All (λ (d : Declared). UniqueKeys (outputs_of d.1)) ds
      → In c ds
      → Fed ds c input
      → input_issues (map entry_of ds) (entry_of c) input ≡ []
  input_issues_of_Fed c (index, input) outputs i (d, j, f) =
      rw
        (
          input_issues,
          subst (λ k. map_get k (steps_by_id (map entry_of ds)) ≡ some (entry_of d)) f.named
              (at_id d j),
        )
        (producer_issues_of_Feeds c d input _ (All_In _ d ds outputs j)
          (λ e. ground (arith, f.before, same_order c d i j e)) f)

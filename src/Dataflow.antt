-- ===== src/Dataflow.antt =====
-- playbook/dataflow-contract.ts: which typed inputs of a playbook's steps are fed by an output of an
-- earlier step. The document is checked as `JSON.parse` gives it.
mod Declared
mod Sound
mod Inputs
mod Checked
mod Tests
use dokion.Base.{
  numbered, filter_map, ℕ, ◌+◌, String, Bool, List, [], ◌∷◌, ◌++◌, map, Option, none, some, ◌==◌,
  leb, includes, flat_map, if◌then◌else◌, ◌⧺◌, decimal, map_get, register,
}
use dokion.Model.Json.{record_of, list_at, text_at, Json, Fields}
use Declared.{
  StepSite, TypedOutput, visited_steps, declared_outputs, TypedInput, typed_input, dependencies,
}

pub record DataflowContractIssue : Type 0 where
  pub message : String
  pub instance_path : String
  pub schema_path : String

pub record StepEntry : Type 0 where
  pub id : String
  pub value : Fields
  pub path : String
  pub order : ℕ
  pub outputs : List (String × TypedOutput)

abbrev pub issue : String → String → String → DataflowContractIssue
issue message instance_path schema_path = record {
  message = message;
  instance_path = instance_path;
  schema_path = schema_path;
}

abbrev pub duplicate_output : String → String × TypedOutput → DataflowContractIssue
duplicate_output id (name, output) =
    issue ("step " ⧺ id ⧺ " declares duplicate typed output " ⧺ name) (output.path ⧺ "/name")
      "#/dataflow/unique-output-name"

-- the outputs of a step, and what is wrong with their names
abbrev pub index_outputs :
    String × StepSite → List (String × TypedOutput) × List DataflowContractIssue
index_outputs (id, site) =
    register (λ _. []) (duplicate_output id) [] (declared_outputs site.path site.value)

abbrev pub duplicate_step : String × StepSite → DataflowContractIssue
duplicate_step (id, site) =
    issue ("step id " ⧺ id ⧺ " must be unique across the Playbook") (site.path ⧺ "/id")
      "#/dataflow/unique-step-id"

abbrev pub entries_from : ℕ → List (String × StepSite) → List StepEntry
entries_from n [] = []
entries_from n ((id, site) ∷ rest) =
    record {
      id = id;
      value = site.value;
      path = site.path;
      order = n;
      outputs = (index_outputs (id, site)).0;
    }
    ∷ entries_from (n + 1) rest

unfoldable pub index_steps : Fields → List StepEntry × List DataflowContractIssue
index_steps document =
    let (indexed, issues) =
      register (λ e. (index_outputs e).1) duplicate_step [] (visited_steps document) in
    (entries_from 0 indexed, issues)

abbrev pub steps_by_id : List StepEntry → List (String × StepEntry)
steps_by_id steps = map (λ s. (s.id, s)) steps

abbrev pub output_issues : StepEntry → TypedInput → String → List DataflowContractIssue
output_issues producer input path = elim (map_get input.output producer.outputs) [
  | none ↦
      issue ("typed input references undeclared output " ⧺ input.step ⧺ "." ⧺ input.output)
        (path ⧺ "/from/output") "#/dataflow/declared-output"
      ∷ []
  | some output ↦
      if output.kind == input.kind
      then []
      else (issue
            ("typed input kind " ⧺ input.kind ⧺ " does not match producer output kind "
              ⧺ output.kind ⧺ " for " ⧺ input.step ⧺ "." ⧺ input.output)
            (path ⧺ "/kind") "#/dataflow/kind-match"
          ∷ [])
]

abbrev pub dependency_issues : StepEntry → TypedInput → String → List DataflowContractIssue
dependency_issues step input path =
    if includes input.step (dependencies step.value)
    then []
    else (issue ("typed input from " ⧺ input.step ⧺ " requires " ⧺ input.step ⧺ " in depends_on")
          path "#/dataflow/explicit-dependency"
        ∷ [])

abbrev pub producer_issues :
    StepEntry → StepEntry → TypedInput → String → List DataflowContractIssue
producer_issues step producer input path =
    if producer.id == step.id
    then (issue ("typed input cannot reference its own consumer step " ⧺ step.id)
          (path ⧺ "/from/step") "#/dataflow/producer-precedes-consumer"
        ∷ [])
    else if leb step.order producer.order
    then (issue
          ("typed input producer " ⧺ input.step ⧺ " must be declared before consumer " ⧺ step.id)
          (path ⧺ "/from/step") "#/dataflow/producer-precedes-consumer"
        ∷ [])
    else dependency_issues step input path ++ output_issues producer input path

-- the body of the loop over the typed inputs of `step`
abbrev pub input_issues : List StepEntry → StepEntry → ℕ × TypedInput → List DataflowContractIssue
input_issues steps step (index, input) =
    let path = step.path ⧺ "/inputs/" ⧺ decimal index in
    elim (map_get input.step (steps_by_id steps)) [
      | none ↦
          issue ("typed input references undeclared producer step " ⧺ input.step)
            (path ⧺ "/from/step") "#/dataflow/declared-producer"
          ∷ []
      | some producer ↦ producer_issues step producer input path
    ]

abbrev pub typed_inputs : Fields → List (ℕ × TypedInput)
typed_inputs value = filter_map typed_input (numbered 0 (list_at "inputs" value))

abbrev pub step_issues : List StepEntry → StepEntry → List DataflowContractIssue
step_issues steps step = flat_map (input_issues steps step) (typed_inputs step.value)

abbrev pub record_issues : Fields → List DataflowContractIssue
record_issues document =
    let (steps, issues) = index_steps document in issues ++ flat_map (step_issues steps) steps

unfoldable pub validate_playbook_dataflow : Json → List DataflowContractIssue
unfolding index_steps
validate_playbook_dataflow document = elim (record_of document) [
  | none ↦ []
  | some fields ↦ record_issues fields
]

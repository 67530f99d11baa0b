-- ===== src/Dataflow/Declared.antt =====
-- playbook/dataflow-contract.ts: what a document declares, entries of another shape passed over.
use dokion.Base.{
  ℕ, String, List, [], Option, none, some, flat_map, numbered, filter_map, ◌⧺◌, decimal, map_option,
}
use dokion.Model.Json.{Json, Fields, record_of, list_at, text_of, text_at, record_at}

pub record TypedOutput : Type 0 where
  pub name : String
  pub kind : String
  pub path : String

-- a step and where it stands in the document
pub record StepSite : Type 0 where
  pub value : Fields
  pub path : String

pub record TypedInput : Type 0 where
  pub step : String
  pub output : String
  pub kind : String

abbrev named_output : String → Option String → Option String → Option (String × TypedOutput)
named_output path (some name) (some kind) =
    some (name, record { name = name; kind = kind; path = path })
named_output path _ _ = none

abbrev output_at : String → ℕ × Json → Option (String × TypedOutput)
output_at step_path (index, value) = elim (record_of value) [
  | none ↦ none
  | some fs ↦
      named_output (step_path ⧺ "/outputs/" ⧺ decimal index) (text_at "name" fs) (text_at "kind" fs)
]

-- the typed outputs of a step by their names
unfoldable pub declared_outputs : String → Fields → List (String × TypedOutput)
declared_outputs step_path value =
    filter_map (output_at step_path) (numbered 0 (list_at "outputs" value))

abbrev site : String → Fields → String → String × StepSite
site path fs id = (id, record { value = fs; path = path })

abbrev step_at : String → ℕ × Json → Option (String × StepSite)
step_at stage_path (index, value) = elim (record_of value) [
  | none ↦ none
  | some fs ↦ map_option (site (stage_path ⧺ "/steps/" ⧺ decimal index) fs) (text_at "id" fs)
]

abbrev stage_steps : ℕ × Json → List (String × StepSite)
stage_steps (index, value) = elim (record_of value) [
  | none ↦ []
  | some fs ↦ filter_map (step_at ("/stages/" ⧺ decimal index)) (numbered 0 (list_at "steps" fs))
]

-- the steps by their ids, in the order of the two loops
unfoldable pub visited_steps : Fields → List (String × StepSite)
visited_steps document = flat_map stage_steps (numbered 0 (list_at "stages" document))

abbrev input_parts : Option String → Option String → Option String → Option TypedInput
input_parts (some step) (some output) (some kind) =
    some (record { step = step; output = output; kind = kind })
input_parts _ _ _ = none

abbrev input_from : Fields → Option Fields → Option TypedInput
input_from fs none = none
input_from fs (some from) =
    input_parts (text_at "step" from) (text_at "output" from) (text_at "kind" fs)

-- a typed input with its index in `inputs`
abbrev pub typed_input : ℕ × Json → Option (ℕ × TypedInput)
typed_input (index, value) = elim (record_of value) [
  | none ↦ none
  | some fs ↦ map_option (λ i. (index, i)) (input_from fs (record_at "from" fs))
]

abbrev texts_of : List Json → List String
texts_of vs = filter_map (λ v. text_of (some v)) vs

-- the texts of `depends_on`
unfoldable pub dependencies : Fields → List String
dependencies value = texts_of (list_at "depends_on" value)

-- ===== src/Dataflow/Tests.antt =====
-- playbook/dataflow-contract.ts on two small playbooks.
use dokion.Base.{◌≡◌, ◌↔◌, refl, String, List, [], ◌∷◌, map}
use dokion.Model.Json.{Json, Items, str, arr, obj, nil, cons, end, field}
use dokion.Dataflow.Declared.{declared_outputs, visited_steps, dependencies}
use dokion.Dataflow.{validate_playbook_dataflow}
use dokion.Dataflow.Sound.{SoundDocument}
use dokion.Dataflow.Checked.{validate_playbook_dataflow-SoundDocument}

abbrev one : Json → Json
one v = arr (cons v nil)

abbrev producer : Json
producer = obj (
    field "id" (str "build")
      (field "outputs" (one (obj (field "name" (str "log") (field "kind" (str "file") end)))) end))

abbrev consumer : String → Json
consumer kind = obj (
    field "id" (str "test") (
      field "depends_on" (one (str "build")) (
        field "inputs"
          (one (
            obj (
              field "kind" (str kind) (
                field "from" (obj (field "step" (str "build") (field "output" (str "log") end)))
                  end))))
          end)))

abbrev playbook : Items → Json
playbook steps = obj (field "stages" (one (obj (field "steps" (arr steps) end))) end)

abbrev in_order : Json
in_order = playbook (cons producer (cons (consumer "file") nil))

abbrev schema_paths : Json → List String
schema_paths document = map (λ i. i.schema_path) (validate_playbook_dataflow document)

in_order-fed : validate_playbook_dataflow in_order ≡ []
unfolding validate_playbook_dataflow declared_outputs visited_steps dependencies
in_order-fed = refl

out_of_order :
    schema_paths (playbook (cons (consumer "file") (cons producer nil)))
    ≡ "#/dataflow/producer-precedes-consumer" ∷ []
unfolding validate_playbook_dataflow declared_outputs visited_steps dependencies
out_of_order = refl

other_kind :
    schema_paths (playbook (cons producer (cons (consumer "text") nil)))
    ≡ "#/dataflow/kind-match" ∷ []
unfolding validate_playbook_dataflow declared_outputs visited_steps dependencies
other_kind = refl

same_step_twice :
    schema_paths (playbook (cons producer (cons producer nil))) ≡ "#/dataflow/unique-step-id" ∷ []
unfolding validate_playbook_dataflow declared_outputs visited_steps dependencies
same_step_twice = refl

validate_playbook_dataflow-SoundDocument_example :
    (validate_playbook_dataflow in_order ≡ []) ↔ SoundDocument in_order
validate_playbook_dataflow-SoundDocument_example = validate_playbook_dataflow-SoundDocument in_order

in_order-SoundDocument : SoundDocument in_order
in_order-SoundDocument = validate_playbook_dataflow-SoundDocument_example.0 in_order-fed

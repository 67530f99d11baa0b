-- ===== src/Registry.antt =====
-- registry/protocol-semantics.ts: what the schemas of registry documents cannot say.
mod Sound
mod Loops
mod Valid
mod Tests
use dokion.Base.{
  ℕ, String, Bool, true, false, not, ◌&&◌, List, [], ◌∷◌, ◌++◌, map, find, flat_map, numbered,
  filter_map, Option, none, some, map_option, ◌==◌, includes, if◌then◌else◌, ◌⧺◌, decimal, register,
}
use dokion.Model.Json.{Json, Fields, record_of, record_at, list_at, text_at}

pub record ProtocolSemanticError : Type 0 where
  pub path : String
  pub keyword : String
  pub message : String

abbrev error : String → String → String → ProtocolSemanticError
error path keyword message = record { path = path; keyword = keyword; message = message }

-- a text that is not empty, as the tests `if (!path)` and `if (name)` ask
abbrev filled : Option String → Option String
filled none = none
filled (some s) = if s == "" then none else some s

unfoldable pub word_at : String → Fields → Option String
word_at key fs = filled (text_at key fs)

abbrev indexed_record : ℕ × Json → Option (ℕ × Fields)
indexed_record (index, value) = map_option (λ fs. (index, fs)) (record_of value)

-- the records among the elements of an array, with their indices
abbrev pub records_at : String → Fields → List (ℕ × Fields)
records_at key document = filter_map indexed_record (numbered 0 (list_at key document))

abbrev pub with_entry : Option String → ℕ → List (String × ℕ) → List (String × ℕ)
with_entry none index rest = rest
with_entry (some word) index rest = (word, index) ∷ rest

-- the words that the records have at `key`, with the records' indices
abbrev pub keyed : String → List (ℕ × Fields) → List (String × ℕ)
keyed key [] = []
keyed key ((index, fs) ∷ rest) = with_entry (word_at key fs) index (keyed key rest)

-- the index that the `Map` has for a word: the first one
abbrev first_index : String → List (String × ℕ) → ℕ
first_index word entries = elim (find (λ e. e.0 == word) entries) [ none ↦ 0 | some e ↦ e.1 ]

abbrev pub declared_paths : Fields → List (String × ℕ)
declared_paths document = keyed "path" (records_at "files" document)

abbrev pub duplicate_path : Fields → String × ℕ → ProtocolSemanticError
duplicate_path document (path, index) =
    error ("/files/" ⧺ decimal index ⧺ "/path") "duplicateFilePath" (
      "Package path "
      ⧺ path
      ⧺ " duplicates files["
      ⧺ decimal (first_index path (declared_paths document))
      ⧺ "].path.")

abbrev pub path_fields : List String
path_fields = "playbook_path" ∷ "readme_path" ∷ "license_path" ∷ []

abbrev pub missing_from : List (String × ℕ) → String → Option String → List ProtocolSemanticError
missing_from seen field_name none = []
missing_from seen field_name (some path) =
    if includes path (map (λ e. e.0) seen)
    then []
    else (error ("/" ⧺ field_name) "declaredPathMissing"
          (field_name ⧺ " must reference a payload file listed in files[].path.")
        ∷ [])

abbrev pub missing_path : Fields → List (String × ℕ) → String → List ProtocolSemanticError
missing_path document seen field_name = missing_from seen field_name (word_at field_name document)

unfoldable pub validate_package_manifest : Fields → List ProtocolSemanticError
validate_package_manifest document =
    let (seen, errors) =
      register (λ _. []) (duplicate_path document) [] (declared_paths document) in
    errors ++ flat_map (missing_path document seen) path_fields

abbrev pub repeat_error :
    List String → Option String → (String → ProtocolSemanticError) → List ProtocolSemanticError
repeat_error seen none f = []
repeat_error seen (some word) f = if includes word seen then f word ∷ [] else []

abbrev pub enter : List String → Option String → List String
enter seen none = seen
enter seen (some word) = if includes word seen then seen else word ∷ seen

abbrev pub duplicate_name : List (ℕ × Fields) → ℕ → String → ProtocolSemanticError
duplicate_name sources index name =
    error ("/sources/" ⧺ decimal index ⧺ "/name") "duplicateSourceName" (
      "Registry source name "
      ⧺ name
      ⧺ " duplicates sources["
      ⧺ decimal (first_index name (keyed "name" sources))
      ⧺ "].name.")

abbrev pub duplicate_id : List (ℕ × Fields) → ℕ → String → ProtocolSemanticError
duplicate_id sources index id = error ("/sources/" ⧺ decimal index ⧺ "/id") "duplicateSourceId" (
    "Registry source ID "
    ⧺ id
    ⧺ " duplicates sources["
    ⧺ decimal (first_index id (keyed "id" sources))
    ⧺ "].id.")

-- the loop over the sources, with the names and the ids that it has seen
abbrev pub source_errors :
    List (ℕ × Fields) → List String → List String → List (ℕ × Fields) → List ProtocolSemanticError
source_errors sources names ids [] = []
source_errors sources names ids ((index, fs) ∷ rest) =
    repeat_error names (word_at "name" fs) (duplicate_name sources index)
    ++ (repeat_error ids (word_at "id" fs) (duplicate_id sources index)
        ++ source_errors sources (enter names (word_at "name" fs)) (enter ids (word_at "id" fs))
            rest)

unfoldable pub validate_registry_config : Fields → List ProtocolSemanticError
validate_registry_config document =
    let sources = records_at "sources" document in source_errors sources [] [] sources

abbrev pub same_text : Option String → String → Bool
same_text none expected = false
same_text (some observed) expected = observed == expected

abbrev integrity_error : String → String → List ProtocolSemanticError
integrity_error field_name what =
    error ("/" ⧺ field_name ⧺ "/integrity_state") "integrityStateMismatch"
      (field_name ⧺ ".integrity_state cannot be " ⧺ what)
    ∷ []

abbrev pub digest_errors :
    String → Option String → Option String → Option String → List ProtocolSemanticError
digest_errors field_name (some expected) observed (some state) =
    if (state == "MATCH") && not (same_text observed expected)
    then integrity_error field_name "MATCH when expected and observed digests differ."
    else if (state == "MISMATCH") && same_text observed expected
    then integrity_error field_name "MISMATCH when expected and observed digests are equal."
    else []
digest_errors field_name _ observed _ = []

abbrev pub observation_errors : String → Option Fields → List ProtocolSemanticError
observation_errors field_name none = []
observation_errors field_name (some fs) =
    digest_errors field_name (word_at "expected_digest" fs) (text_at "observed_digest" fs)
      (word_at "integrity_state" fs)

unfoldable pub validate_provenance : Fields → List ProtocolSemanticError
validate_provenance document =
    observation_errors "manifest" (record_at "manifest" document)
    ++ observation_errors "artifact" (record_at "artifact" document)

abbrev pub schema_errors : String → Fields → List ProtocolSemanticError
schema_errors schema_name fields =
    if schema_name == "dokion.package-manifest.v1"
    then validate_package_manifest fields
    else if schema_name == "dokion.registry-config.v1"
    then validate_registry_config fields
    else if schema_name == "dokion.provenance.v1"
    then validate_provenance fields
    else []

unfoldable pub validate_registry_document_semantics : String → Json → List ProtocolSemanticError
validate_registry_document_semantics schema_name document = elim (record_of document) [
  | none ↦ []
  | some fields ↦ schema_errors schema_name fields
]

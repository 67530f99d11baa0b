-- ===== src/Registry/Tests.antt =====
-- registry/protocol-semantics.ts on small documents.
use dokion.Base.{◌≡◌, ◌↔◌, refl, String, List, [], ◌∷◌, map}
use dokion.Model.Json.{Json, Items, str, arr, obj, nil, cons, end, field}
use dokion.Registry.{
  word_at, validate_package_manifest, validate_registry_config, validate_provenance,
  validate_registry_document_semantics,
}
use dokion.Registry.Valid.{SoundSemantics, validate_registry_document_semantics-SoundSemantics}

abbrev file : String → Json
file path = obj (field "path" (str path) end)

abbrev manifest : Items → Json
manifest files = obj (field "files" (arr files) (field "playbook_path" (str "playbook.json") end))

abbrev complete : Json
complete = manifest (cons (file "README.md") (cons (file "playbook.json") nil))

abbrev keywords : String → Json → List String
keywords name document = map (λ e. e.keyword) (validate_registry_document_semantics name document)

complete_passes : keywords "dokion.package-manifest.v1" complete ≡ []
unfolding validate_registry_document_semantics validate_package_manifest word_at
complete_passes = refl

missing_playbook :
    keywords "dokion.package-manifest.v1" (manifest (cons (file "a") (cons (file "a") nil)))
    ≡ "duplicateFilePath" ∷ "declaredPathMissing" ∷ []
unfolding validate_registry_document_semantics validate_package_manifest word_at
missing_playbook = refl

abbrev source : String → String → Json
source name id = obj (field "name" (str name) (field "id" (str id) end))

same_id :
    keywords "dokion.registry-config.v1"
      (obj (field "sources" (arr (cons (source "a" "1") (cons (source "b" "1") nil))) end))
    ≡ "duplicateSourceId" ∷ []
unfolding validate_registry_document_semantics validate_registry_config word_at
same_id = refl

false_match :
    keywords "dokion.provenance.v1" (
      obj (
        field "artifact"
          (obj (
            field "expected_digest" (str "sha256:a") (
              field "observed_digest"
                (str "sha256:b")
                (field "integrity_state" (str "MATCH") end))))
          end))
    ≡ "integrityStateMismatch" ∷ []
unfolding validate_registry_document_semantics validate_provenance word_at
false_match = refl

validate_registry_document_semantics-SoundSemantics_example :
    (validate_registry_document_semantics "dokion.package-manifest.v1" complete ≡ [])
    ↔ SoundSemantics "dokion.package-manifest.v1" complete
validate_registry_document_semantics-SoundSemantics_example =
    validate_registry_document_semantics-SoundSemantics "dokion.package-manifest.v1" complete

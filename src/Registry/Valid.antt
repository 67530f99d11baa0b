-- ===== src/Registry/Valid.antt =====
-- registry/protocol-semantics.ts: what is found without an error.
use dokion.Base.{
  ℕ, String, Bool, true, false, List, [], flat_map, Option, none, some, ◌==◌, ◌≡◌, ◌↔◌, refl, All,
  All-All, register, register-clean, register_of_unique, if◌then◌else◌,
}
use dokion.Model.Json.{Json, Fields, null, bool, num, str, arr, obj, record_at, text_at}
use dokion.Registry.{
  word_at, records_at, keyed, declared_paths, duplicate_path, path_fields, missing_path,
  validate_package_manifest, validate_registry_config, observation_errors, validate_provenance,
  schema_errors, validate_registry_document_semantics,
}
use dokion.Registry.Sound.{Listed, SoundManifest, SoundConfig, SoundObservation, SoundProvenance}
use dokion.Registry.Loops.{
  append_nil_iff, source_errors-Fresh, digest_errors-Agrees, missing_from-Listed,
}

validate_package_manifest-SoundManifest :
    (document : Fields) → (validate_package_manifest document ≡ []) ↔ SoundManifest document
unfolding validate_package_manifest
validate_package_manifest-SoundManifest document = (sound, clean)
  where
    paths : List (String × ℕ)
    paths = declared_paths document

    all_listed :
        flat_map (missing_path document paths) path_fields ≡ [] → All (Listed document) path_fields
    all_listed h =
        let (a, after_a) = (append_nil_iff (missing_path document paths "playbook_path") _).0 h in
        let (b, after_b) =
          (append_nil_iff (missing_path document paths "readme_path") _).0 after_a in
        let (c, _) = (append_nil_iff (missing_path document paths "license_path") []).0 after_b in
        (
          (missing_from-Listed paths "playbook_path" (word_at "playbook_path" document)).0 a,
          (
            (missing_from-Listed paths "readme_path" (word_at "readme_path" document)).0 b,
            ((missing_from-Listed paths "license_path" (word_at "license_path" document)).0 c, tt),
          ),
        )

    sound : validate_package_manifest document ≡ [] → SoundManifest document
    sound h =
        let (once, listed) =
          (append_nil_iff (register (λ _. []) (duplicate_path document) [] paths).1 _).0 h in
        let (_, unique, _, same) =
          register-clean (λ _. []) (duplicate_path document) [] paths once in
        (unique, all_listed (rw same at listed))

    clean : SoundManifest document → validate_package_manifest document ≡ []
    clean (unique, (a, (b, (c, _)))) =
        rw
          (
            register_of_unique (λ _. []) (duplicate_path document) [] paths
                (All-All _ paths (λ _. refl)) unique (All-All _ paths (λ _. refl)),
            (missing_from-Listed paths "playbook_path" (word_at "playbook_path" document)).1 a,
            (missing_from-Listed paths "readme_path" (word_at "readme_path" document)).1 b,
            (missing_from-Listed paths "license_path" (word_at "license_path" document)).1 c,
          )
          refl

validate_registry_config-SoundConfig :
    (document : Fields) → (validate_registry_config document ≡ []) ↔ SoundConfig document
unfolding validate_registry_config
validate_registry_config-SoundConfig document =
    let sources = records_at "sources" document in
    let (there, back) = source_errors-Fresh sources [] [] sources in
    (
      λ h. let ((_, names), (_, ids)) = there h in (names, ids),
      λ (names, ids). back (
        (All-All _ (keyed "name" sources) (λ _. refl), names),
        (All-All _ (keyed "id" sources) (λ _. refl), ids),
      ),
    )

observation_errors-SoundObservation :
    (field_name : String) (o : Option Fields)
    → (observation_errors field_name o ≡ []) ↔ SoundObservation o
observation_errors-SoundObservation field_name none = (λ _. tt, λ _. refl)
observation_errors-SoundObservation field_name (some fs) =
    digest_errors-Agrees field_name (word_at "expected_digest" fs) (text_at "observed_digest" fs)
      (word_at "integrity_state" fs)

validate_provenance-SoundProvenance :
    (document : Fields) → (validate_provenance document ≡ []) ↔ SoundProvenance document
unfolding validate_provenance
validate_provenance-SoundProvenance document =
    let (there, back) =
      append_nil_iff (observation_errors "manifest" (record_at "manifest" document))
        (observation_errors "artifact" (record_at "artifact" document)) in
    let m = observation_errors-SoundObservation "manifest" (record_at "manifest" document) in
    let a = observation_errors-SoundObservation "artifact" (record_at "artifact" document) in
    (λ h. let (p, q) = there h in (m.0 p, a.0 q), λ (p, q). back (m.1 p, a.1 q))

-- what a schema asks of an object beyond its shape
abbrev pub SoundFields : String → Fields → Type 0
SoundFields schema_name document =
    if schema_name == "dokion.package-manifest.v1"
    then SoundManifest document
    else if schema_name == "dokion.registry-config.v1"
    then SoundConfig document
    else if schema_name == "dokion.provenance.v1"
    then SoundProvenance document
    else Unit

abbrev pub SoundSemantics : String → Json → Type 0
SoundSemantics schema_name (obj document) = SoundFields schema_name document
SoundSemantics schema_name _ = Unit

schema_errors-SoundFields :
    (schema_name : String) (document : Fields)
    → (schema_errors schema_name document ≡ []) ↔ SoundFields schema_name document
schema_errors-SoundFields schema_name document =
    choose (schema_name == "dokion.package-manifest.v1")
      (validate_package_manifest-SoundManifest document)
      (choose (schema_name == "dokion.registry-config.v1")
        (validate_registry_config-SoundConfig document)
        (choose (schema_name == "dokion.provenance.v1")
          (validate_provenance-SoundProvenance document) (λ _. tt, λ _. refl)))
  where
    choose :
        {A : Type 0} {xs ys zs : List A} {P Q : Type 0} (b : Bool)
        → (xs ≡ zs) ↔ P
        → (ys ≡ zs) ↔ Q
        → ((if b then xs else ys) ≡ zs) ↔ (if b then P else Q)
    choose true f g = f
    choose false f g = g

-- `validateRegistryDocumentSemantics` finds no error in a document exactly if it is sound for its
-- schema. In a package manifest, the file paths are unique and the playbook, readme and license paths,
-- where given, are among them. In a registry configuration, the names and the ids of the sources are
-- unique. In a provenance record, no integrity state contradicts the two digests. A document that is no
-- object, or of another schema, has no error.
pub validate_registry_document_semantics-SoundSemantics :
    (schema_name : String) (document : Json)
    → (validate_registry_document_semantics schema_name document ≡ [])
      ↔ SoundSemantics schema_name document
unfolding validate_registry_document_semantics
validate_registry_document_semantics-SoundSemantics name null = (λ _. tt, λ _. refl)
validate_registry_document_semantics-SoundSemantics name (bool b) = (λ _. tt, λ _. refl)
validate_registry_document_semantics-SoundSemantics name (num n) = (λ _. tt, λ _. refl)
validate_registry_document_semantics-SoundSemantics name (str s) = (λ _. tt, λ _. refl)
validate_registry_document_semantics-SoundSemantics name (arr vs) = (λ _. tt, λ _. refl)
validate_registry_document_semantics-SoundSemantics name (obj document) =
    schema_errors-SoundFields name document

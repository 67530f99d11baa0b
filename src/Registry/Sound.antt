-- ===== src/Registry/Sound.antt =====
-- registry/protocol-semantics.ts: the documents whose semantics are sound.
use dokion.Base.{ℕ, String, Option, none, some, ◌≡◌, ◌≢◌, ◌⊎◌, All, In, UniqueKeys}
use dokion.Model.Json.{Fields, text_at, record_at}
use dokion.Registry.{word_at, records_at, keyed, declared_paths, path_fields}

-- a path that the document names, if it names one, is that of a listed file
abbrev pub Listed : Fields → String → Type 0
Listed document field_name =
    (word_at field_name document ≡ none)
    ⊎ ((path : String) × (word_at field_name document ≡ some path)
        × (index : ℕ) × In (path, index) (declared_paths document))

abbrev pub SoundManifest : Fields → Type 0
SoundManifest document = UniqueKeys (declared_paths document) × All (Listed document) path_fields

abbrev pub SoundConfig : Fields → Type 0
SoundConfig document =
    UniqueKeys (keyed "name" (records_at "sources" document))
    × UniqueKeys (keyed "id" (records_at "sources" document))

-- a recorded state of integrity agrees with the digests
abbrev pub Agrees : Option String → Option String → Option String → Type 0
Agrees (some expected) observed (some state) =
    ((state ≢ "MATCH") ⊎ (observed ≡ some expected))
    × ((state ≢ "MISMATCH") ⊎ (observed ≢ some expected))
Agrees _ observed _ = Unit

abbrev pub SoundObservation : Option Fields → Type 0
SoundObservation none = Unit
SoundObservation (some fs) =
    Agrees (word_at "expected_digest" fs) (text_at "observed_digest" fs)
      (word_at "integrity_state" fs)

abbrev pub SoundProvenance : Fields → Type 0
SoundProvenance document =
    SoundObservation (record_at "manifest" document)
    × SoundObservation (record_at "artifact" document)

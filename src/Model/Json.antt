-- ===== src/Model/Json.antt =====
-- Values of `JSON.parse`, for the parts of the data that the source types as `unknown`: profile
-- values, event payloads, and the playbook before its schema has been checked. Numbers are the
-- non-negative integers that the modelled code reads.
use dokion.Base.{
  ℕ, String, Bool, true, false, List, [], ◌∷◌, Option, none, some, ◌==◌, eqb, if◌then◌else◌,
}

mutual
  pub data Json : Type 0 where
    null : Json
    bool : Bool → Json
    num : ℕ → Json
    str : String → Json
    arr : Items → Json
    obj : Fields → Json

  pub data Items : Type 0 where
    nil : Items
    cons : Json → Items → Items

  pub data Fields : Type 0 where
    end : Fields
    field : String → Json → Fields → Fields

abbrev pub items : Items → List Json
items nil = []
items (cons v vs) = v ∷ items vs

abbrev pub fields : Fields → List (String × Json)
fields end = []
fields (field k v fs) = (k, v) ∷ fields fs

-- `record[key]`: the last field of that name counts, as for a parsed document
abbrev pub get : String → Fields → Option Json
get k end = none
get k (field j v fs) = elim (get k fs) [ some w ↦ some w | none ↦ if j == k then some v else none ]

abbrev bool_eq : Bool → Bool → Bool
bool_eq true b = b
bool_eq false true = false
bool_eq false false = true

-- `===`: by value on primitives; two parsed objects or arrays are never the same reference
abbrev pub strict_eq : Json → Json → Bool
strict_eq null null = true
strict_eq (bool a) (bool b) = bool_eq a b
strict_eq (num a) (num b) = eqb a b
strict_eq (str a) (str b) = a == b
strict_eq _ _ = false

-- `isRecord`
abbrev pub record_of : Json → Option Fields
record_of (obj fs) = some fs
record_of _ = none

-- `Array.isArray(v) ? v : []`
abbrev list_of : Option Json → List Json
list_of (some (arr vs)) = items vs
list_of _ = []

abbrev pub list_at : String → Fields → List Json
list_at key fs = list_of (get key fs)

-- the test `typeof v === "string"`
abbrev pub text_of : Option Json → Option String
text_of (some (str s)) = some s
text_of _ = none

abbrev pub text_at : String → Fields → Option String
text_at key fs = text_of (get key fs)

abbrev pub record_at : String → Fields → Option Fields
record_at key fs = elim (get key fs) [ none ↦ none | some v ↦ record_of v ]

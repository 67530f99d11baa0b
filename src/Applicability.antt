-- ===== src/Applicability.antt =====
-- applicability/evaluate-applicability.ts: whether a stage or a step applies to the project.
use Prim.Native.Char.{code}
use dokion.Base.{
  ◌⧺◌, ℕ, String, Bool, true, false, not, ◌||◌, List, [], ◌∷◌, Option, none, some, ◌==◌, eqb, ◌or◌,
  every, some_of, if◌then◌else◌, Exec, pure, ◌>>=◌,
}
use dokion.Model.Json.{Json, bool, str, arr, items, strict_eq}
use dokion.Model.Playbook.{
  Applicability, DokionPlatform, claude_code, codex, gemini_cli, other, ProfileExpectation, is_bool,
  is_text, has_all,
}
use dokion.World.{Host, World, ask}

pub record ApplicabilityResult : Type 0 where
  pub applicable : Bool
  pub reason : String

-- /[*?\[\]{}]/
abbrev is_glob_code : ℕ → Bool
is_glob_code c = eqb c b'*' || eqb c b'?' || eqb c b'[' || eqb c b']' || eqb c b'{' || eqb c b'}'

unfoldable pub contains_glob_syntax : String → Bool
contains_glob_syntax String.[] = false
contains_glob_syntax (String.◌∷◌ c s) = is_glob_code (code c) || contains_glob_syntax s

unfoldable pub detect_platform : Option String → DokionPlatform
detect_platform none = other
detect_platform (some v) =
    if v == "claude_code"
    then claude_code
    else if v == "codex"
    then codex
    else if v == "gemini_cli"
    then gemini_cli
    else other

abbrev pub same_platform : DokionPlatform → DokionPlatform → Bool
same_platform claude_code claude_code = true
same_platform codex codex = true
same_platform gemini_cli gemini_cli = true
same_platform other other = true
same_platform _ _ = false

unfoldable pub profile_value_matches : Option Json → ProfileExpectation → Bool
profile_value_matches (some (arr xs)) (has_all vs) =
    every (λ v. some_of (λ x. strict_eq x v) (items xs)) vs
profile_value_matches (some actual) (is_bool b) = strict_eq actual (bool b)
profile_value_matches (some actual) (is_text s) = strict_eq actual (str s)
profile_value_matches _ _ = false

abbrev pub profile_value : String → List (String × Json) → Option Json
profile_value k [] = none
profile_value k ((j, v) ∷ p) = if j == k then some v else profile_value k p

-- the first key of `when_profile` that does not match
abbrev pub profile_mismatch :
    List (String × Json) → List (String × ProfileExpectation) → Option String
profile_mismatch p [] = none
profile_mismatch p ((k, expected) ∷ es) =
    if profile_value_matches (profile_value k p) expected then profile_mismatch p es else some k

abbrev pub platform_refused : Option (List DokionPlatform) → DokionPlatform → Bool
platform_refused none p = false
platform_refused (some ps) p = not (some_of (λ q. same_platform q p) ps)

abbrev pub platform_name : DokionPlatform → String
platform_name claude_code = "claude_code"
platform_name codex = "codex"
platform_name gemini_cli = "gemini_cli"
platform_name other = "other"

abbrev pub inapplicable : String → ApplicabilityResult
inapplicable reason = record { applicable = false; reason = reason }

abbrev pub applies : String → ApplicabilityResult
applies reason = record { applicable = true; reason = reason }

module _ (h : Host) where
  unfoldable pub path_pattern_matches : String → Exec World Bool
  path_pattern_matches pattern =
      if contains_glob_syntax pattern
      then ask (λ t. h.glob_matches t pattern)
      else ask (λ t. h.path_exists t pattern)

  -- the first pattern whose match is not the wanted one
  unfoldable pub first_path : Bool → List String → Exec World (Option String)
  first_path wanted [] = pure none
  first_path wanted (pattern ∷ patterns) = do
    found ← path_pattern_matches pattern
    if (if wanted then found else not found)
        then first_path wanted patterns
        else pure (some pattern)

  -- the conditions that need no file system, after the path conditions
  abbrev pub evaluate_profile :
      DokionPlatform → List (String × Json) → Applicability → ApplicabilityResult
  evaluate_profile platform profile a =
      if platform_refused a.when_platform platform
      then inapplicable ("platform " ⧺ platform_name platform ⧺ " is not declared applicable")
      else elim (profile_mismatch profile (a.when_profile or [])) [
        | some key ↦ inapplicable ("profile mismatch: " ⧺ key)
        | none ↦ applies "all declared applicability conditions matched"
      ]

  abbrev pub evaluate_absent :
      DokionPlatform
      → List (String × Json)
      → Applicability
      → Option String
      → Exec World ApplicabilityResult
  evaluate_absent platform profile a (some pattern) =
      pure (inapplicable ("forbidden path pattern matched: " ⧺ pattern))
  evaluate_absent platform profile a none = pure (evaluate_profile platform profile a)

  abbrev pub evaluate_exist :
      DokionPlatform
      → List (String × Json)
      → Applicability
      → Option String
      → Exec World ApplicabilityResult
  evaluate_exist platform profile a (some pattern) =
      pure (inapplicable ("required path pattern has no match: " ⧺ pattern))
  evaluate_exist platform profile a none = do
    present ← first_path false (a.when_paths_absent or [])
    evaluate_absent platform profile a present

  unfoldable pub evaluate_applicability :
      DokionPlatform → List (String × Json) → Option Applicability → Exec World ApplicabilityResult
  evaluate_applicability platform profile none =
      pure (applies "no applicability constraints declared")
  evaluate_applicability platform profile (some a) = do
    absent ← first_path true (a.when_paths_exist or [])
    evaluate_exist platform profile a absent

-- ===== src/World/Platform.antt =====
-- platform/platform-detector.ts: the agent of `detectAgentPlatform`, by the environment's variables.
use dokion.Base.{
  ◌⧺◌, String, Bool, false, not, List, [], ◌∷◌, ◌++◌, Option, none, some, ◌==◌, some_of,
  if◌then◌else◌, Result, ok, err, plain_error,
}
use dokion.Model.Playbook.{DokionPlatform, claude_code, codex, gemini_cli, other}

-- a variable or a value that is there and not empty
abbrev pub truthy : Option String → Bool
truthy none = false
truthy (some v) = not (v == "")

abbrev agent_named : String → Option DokionPlatform
agent_named v =
    if v == "claude_code"
    then some claude_code
    else if v == "codex"
    then some codex
    else if v == "gemini_cli"
    then some gemini_cli
    else if v == "other"
    then some other
    else none

module _ (env : String → Option String) where
  abbrev explicit_named : String → Result (Option DokionPlatform)
  explicit_named value = elim (agent_named value) [
    | some agent ↦ ok (some agent)
    | none ↦ err (plain_error ("Unsupported DOKION_AGENT: " ⧺ value))
  ]

  abbrev explicit_of : Option String → Result (Option DokionPlatform)
  explicit_of none = ok none
  explicit_of (some value) = if value == "" then ok none else explicit_named value

  abbrev pub explicit_agent : Result (Option DokionPlatform)
  explicit_agent = explicit_of (env "DOKION_AGENT")

  abbrev has_one_of : List String → Bool
  has_one_of names = some_of (λ name. truthy (env name)) names

  abbrev pub inferred_agents : List DokionPlatform
  inferred_agents =
      (if has_one_of
          ("CLAUDE_PROJECT_DIR" ∷ "CLAUDE_CODE" ∷ "CLAUDE_PLUGIN_ROOT" ∷ "CLAUDE_CODE_REMOTE" ∷ [])
        then claude_code ∷ []
        else [])
      ++ (if has_one_of ("CODEX_HOME" ∷ "CODEX_CI" ∷ "CODEX_SANDBOX" ∷ "CODEX_THREAD_ID" ∷ [])
          then codex ∷ []
          else [])
      ++ (if has_one_of ("GEMINI_CLI" ∷ "GEMINI_EXTENSION_PATH" ∷ "GEMINI_PROJECT_DIR" ∷ [])
          then gemini_cli ∷ []
          else [])

  abbrev only_agent : List DokionPlatform → DokionPlatform
  only_agent (agent ∷ []) = agent
  only_agent _ = other

  abbrev agent_of : Result (Option DokionPlatform) → Result DokionPlatform
  agent_of (err e) = err e
  agent_of (ok (some agent)) = ok agent
  agent_of (ok none) = ok (only_agent inferred_agents)

  unfoldable pub detect_agent_platform : Result DokionPlatform
  detect_agent_platform = agent_of explicit_agent

-- ===== src/Tools/Cli.antt =====
-- `cli` and `az` of scripts/workshop.py: a tool that is missing, fails, hangs or answers with no
-- JSON is a `DeploymentError`.
use sre_agent_workshop.Prelude.{
  ℕ, zero, Bool, true, false, Option, none, some, List, [], ◌∷◌, ◌++◌, String, if◌then◌else◌,
}
use sre_agent_workshop.Prelude.Int.{pos}
use sre_agent_workshop.Prelude.Text.{◌<>◌, str_eq, strip, decimal, decimal_int, last_chars}
use sre_agent_workshop.Exec.{Exec, deployment_error, pure, raise, or_raise, ◌>>=◌}
use sre_agent_workshop.Json.{Value, null}
use sre_agent_workshop.Tools.Machine.{Machine, Ran, finished, timed_out}

-- `" ".join(args[:2])`
unfoldable pub first_two : List String → String
first_two [] = ""
first_two (a ∷ []) = a
first_two (a ∷ b ∷ _) = a <> " " <> b

abbrev pub cli_timeout : ℕ
cli_timeout = 180

module _ (m : Machine) where
  open m use {World, which, launcher, run, json_loads}

  -- the command of `az` with its launcher, before the two options for JSON output
  abbrev pub az_command : String → List String → Option (String × Bool) → Exec World (List String)
  az_command executable args none = pure (executable ∷ args)
  az_command executable args (some (runtime, true)) =
      pure (runtime ∷ "-I" ∷ "-B" ∷ "-m" ∷ "azure.cli" ∷ args)
  az_command executable args (some (runtime, false)) = raise (
      deployment_error
        "The Windows Azure CLI launcher has no bundled Python runtime; use the official Azure CLI installation to preserve literal arguments.")

  unfoldable pub command_of : String → String → List String → Exec World (List String)
  command_of tool executable args =
      if str_eq tool "az"
      then (do
        bundled ← launcher executable
        command ← az_command executable args bundled
        pure (command ++ "--only-show-errors" ∷ "--output" ∷ "json" ∷ []))
      else pure (executable ∷ args)

  -- the end of `cli`: the output of a run that has succeeded
  unfoldable pub output_of : String → List String → ℕ → Bool → Ran → Exec World String
  output_of tool args timeout sensitive timed_out = raise (
      deployment_error (
        tool
        <> " "
        <> first_two args
        <> " exceeded "
        <> decimal timeout
        <> "s. An Azure operation may still be running; inspect its status before submitting it again."))
  output_of tool args timeout sensitive (finished (pos zero) stdout stderr) = pure stdout
  output_of tool args timeout sensitive (finished code stdout stderr) = raise (
      deployment_error (
        tool
        <> " "
        <> first_two args
        <> " failed (exit "
        <> decimal_int code
        <> "). "
        <> (if sensitive
            then "Credential-related output withheld."
            else last_chars 3000 (strip stderr))))

  unfoldable pub cli : String → List String → ℕ → Bool → Exec World String
  cli tool args timeout sensitive = do
    found ← which tool
    executable ← or_raise found (deployment_error ("Install " <> tool <> " before running azd up."))
    command ← command_of tool executable args
    ran ← run command timeout
    output_of tool args timeout sensitive ran

  -- `json.loads(output) if output.strip() else None`
  unfoldable pub json_of : List String → String → Exec World Value
  json_of args output =
      if str_eq (strip output) ""
      then pure null
      else or_raise (json_loads output)
          (deployment_error ("az " <> first_two args <> " returned invalid JSON."))

  -- `az(*args, timeout=..., sensitive=...)`
  abbrev pub az_with : ℕ → Bool → List String → Exec World Value
  az_with timeout sensitive args = do output ← cli "az" args timeout sensitive; json_of args output

  abbrev pub az_within : ℕ → List String → Exec World Value
  az_within timeout args = az_with timeout false args

  unfoldable pub az : List String → Exec World Value
  az args = az_within cli_timeout args

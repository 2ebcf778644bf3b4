-- ===== src/Adapters/Compose.antt =====
-- The adapter of `podman compose` (crates/infractl-adapters/src/lib.rs).
use btc_infra_tools.Base.{
  Option, none, some, List, [], ◌∷◌, ◌++◌, first, String, Bool, ◌==◌, if◌then◌else◌,
}
use btc_infra_tools.Base.Text.{◌⧺◌, trim}
use btc_infra_tools.Base.Result.{Result, bail, ok_or}
use btc_infra_tools.Adapters.World.{
  Output, System, Act, ◌>>=◌, ◌>>◌, lift, return, command, debug_code, Json, and_then,
}
use btc_infra_tools.Adapters.Launchd.{split_lines}

-- `-p project`, `-f compose_file` and `-f compose_override`, as far as they are set.
unfoldable pub compose_args : String → Option String → Option String → List String → List String
compose_args compose_file compose_override project action_args =
    "compose"
    ∷ (elim project [ none ↦ [] | some name ↦ "-p" ∷ name ∷ [] ]
        ++ ("-f" ∷ compose_file ∷ [])
        ++ elim compose_override [ none ↦ [] | some file ↦ "-f" ∷ file ∷ [] ]
        ++ action_args)

-- The field `State.Running` of the first container.
unfoldable pub running_state : (json : Json) → json.Value → Option Bool
running_state json parsed =
    and_then
      (and_then (and_then (and_then (json.as_array parsed) first) (λ item. json.get item "State"))
        (λ state. json.get state "Running"))
      json.as_bool

module _ (system : System) (json : Json) where
  unfoldable pub compose_failure :
      {A : Type 0} → String → Option String → Option String → String → Output → Result A
  compose_failure compose_file compose_override project action output = bail (
      "podman compose "
      ⧺ action
      ⧺ " failed (compose_file="
      ⧺ compose_file
      ⧺ ", override="
      ⧺ system.debug_text compose_override
      ⧺ ", project="
      ⧺ system.debug_text project
      ⧺ ", status="
      ⧺ debug_code output.code
      ⧺ ", stdout="
      ⧺ trim output.stdout
      ⧺ ", stderr="
      ⧺ trim output.stderr
      ⧺ ")")

  unfoldable pub run_compose_capture :
      String → Option String → Option String → List String → String → Act String
  run_compose_capture compose_file compose_override project action_args action =
      command system "podman" (compose_args compose_file compose_override project action_args)
      >>= λ output.
          if output.success
          then return output.stdout
          else lift (compose_failure compose_file compose_override project action output)

  unfoldable pub run_compose :
      String → Option String → Option String → List String → String → Act (Unit {0})
  run_compose compose_file compose_override project action_args action =
      command system "podman" (compose_args compose_file compose_override project action_args)
      >>= λ output.
          if output.success
          then return tt
          else lift (compose_failure compose_file compose_override project action output)

  module _ (compose_file : String) (compose_override project : Option String) where
    unfoldable pub start : Act (Unit {0})
    start = run_compose compose_file compose_override project ("up" ∷ "-d" ∷ []) "start"

    unfoldable pub stop : Act (Unit {0})
    stop = run_compose compose_file compose_override project ("down" ∷ []) "stop"

    unfoldable pub restart : Act (Unit {0})
    restart =
        run_compose compose_file compose_override project ("down" ∷ []) "restart"
        >> run_compose compose_file compose_override project ("up" ∷ "-d" ∷ []) "restart"

  unfoldable pub container_is_running : String → Act Bool
  container_is_running container_id =
      command system "podman" ("inspect" ∷ container_id ∷ []) >>= λ output.
      if output.success
      then (lift (json.from_str output.stdout) >>= λ parsed.
          lift (
            ok_or (running_state json parsed)
              "podman inspect output missing `State.Running` field"))
      else lift (
          bail (
            "podman inspect failed (container_id="
            ⧺ container_id
            ⧺ ", status="
            ⧺ debug_code output.code
            ⧺ ", stdout="
            ⧺ trim output.stdout
            ⧺ ", stderr="
            ⧺ trim output.stderr
            ⧺ ")"))

  -- The `for` loop over the ids, lines that are blank left out.
  unfoldable pub keep_running : List String → Act (List String)
  keep_running [] = return []
  keep_running (line ∷ lines) =
      let rest = keep_running lines in
      if trim line == ""
      then rest
      else (container_is_running (trim line) >>= λ is_running.
          rest >>= λ running. return (if is_running then trim line ∷ running else running))

  unfoldable pub running_container_ids : String → Option String → Option String → Act (List String)
  running_container_ids compose_file compose_override project =
      run_compose_capture compose_file compose_override project ("ps" ∷ "-q" ∷ []) "status"
      >>= λ output. keep_running (split_lines output)

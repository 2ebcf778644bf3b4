-- ===== src/Core/Usecase.antt =====
-- From a service and an action to a plan (crates/infractl-core/src/usecase.rs).
pub mod Planned
mod Tests
use btc_infra_tools.Base.{Option, none, some, List, [], ◌∷◌, String, ◌==◌, lookup, if◌then◌else◌}
use btc_infra_tools.Base.Text.{◌⧺◌, trim}
use btc_infra_tools.Base.Result.{Result, ok, err, bail, ok_or, transpose, ◌>>=◌}
use btc_infra_tools.Core.Env.{EnvResolver, expand_placeholders}
use btc_infra_tools.Core.Config.{BelterConfig, ServiceConfig}
use btc_infra_tools.Core.Plan.{
  Operation, Plan, start_launchd_service, stop_launchd_service, restart_launchd_service,
  start_podman_compose_service, stop_podman_compose_service, restart_podman_compose_service,
  start_podman_machine, stop_podman_machine, restart_podman_machine,
}

pub data ServiceAction : Type 0 where
  start stop restart : ServiceAction

pub record ServiceCommandRequest : Type 0 where
  pub config : BelterConfig
  pub service_name : String
  pub action : ServiceAction

unfoldable pub launchd_action : ServiceAction → String → Operation
launchd_action start unit = start_launchd_service unit
launchd_action stop unit = stop_launchd_service unit
launchd_action restart unit = restart_launchd_service unit

unfoldable pub compose_action : ServiceAction → String → Option String → Option String → Operation
compose_action start file over project = start_podman_compose_service file over project
compose_action stop file over project = stop_podman_compose_service file over project
compose_action restart file over project = restart_podman_compose_service file over project

unfoldable pub machine_action : ServiceAction → String → Operation
machine_action start machine = start_podman_machine machine
machine_action stop machine = stop_podman_machine machine
machine_action restart machine = restart_podman_machine machine

-- The template of an option, expanded where it is given.
abbrev pub expand_option : Option String → EnvResolver → Result (Option String)
expand_option template resolve = transpose (λ t. expand_placeholders t resolve) template

abbrev pub missing_field : String → String → String
missing_field service_name field = "service `" ⧺ service_name ⧺ "` is missing `" ⧺ field ⧺ "`"

unfoldable pub launchd_operation :
    ServiceCommandRequest → ServiceConfig → EnvResolver → Result Operation
unfolding launchd_action
launchd_operation req service resolve = do
  template ← ok_or service.unit (missing_field req.service_name "unit")
  unit ← expand_placeholders template resolve
  ok (launchd_action req.action unit)

unfoldable pub podman_compose_operation :
    ServiceCommandRequest → ServiceConfig → EnvResolver → Result Operation
unfolding compose_action
podman_compose_operation req service resolve = do
  template ← ok_or service.compose_file (missing_field req.service_name "compose_file")
  compose_file ← expand_placeholders template resolve
  compose_override ← expand_option service.compose_override resolve
  project ← expand_option service.project resolve
  ok (compose_action req.action compose_file compose_override project)

unfoldable pub podman_machine_operation :
    ServiceCommandRequest → ServiceConfig → EnvResolver → Result Operation
unfolding machine_action
podman_machine_operation req service resolve = do
  template ← ok_or service.machine (missing_field req.service_name "machine")
  machine ← expand_placeholders template resolve
  ok (machine_action req.action machine)

-- The `match` on the manager.
unfoldable pub manager_operation :
    ServiceCommandRequest → ServiceConfig → EnvResolver → Result Operation
manager_operation req service resolve =
    if service.manager == "launchd"
    then launchd_operation req service resolve
    else if service.manager == "podman_compose"
    then podman_compose_operation req service resolve
    else if service.manager == "podman_machine"
    then podman_machine_operation req service resolve
    else bail
        ("service `" ⧺ req.service_name ⧺ "` uses unsupported manager `" ⧺ service.manager ⧺ "`")

-- The check of the manager, and the `match`.
unfoldable pub service_operation :
    ServiceCommandRequest → ServiceConfig → EnvResolver → Result Operation
service_operation req service resolve =
    if trim service.manager == ""
    then bail ("service `" ⧺ req.service_name ⧺ "` has an empty `manager`")
    else manager_operation req service resolve

unfoldable pub plan : ServiceCommandRequest → EnvResolver → Result Plan
plan req resolve = do
  services ← ok_or req.config.service "missing [service] section"
  service ←
      ok_or (lookup req.service_name services)
        ("service `" ⧺ req.service_name ⧺ "` not found in config")
  operation ← service_operation req service resolve
  ok (record { operations = operation ∷ [] })

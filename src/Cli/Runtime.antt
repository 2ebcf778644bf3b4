-- ===== src/Cli/Runtime.antt =====
-- The state in which a service runs, and what a bring-up does about it
-- (crates/infractl-cli/src/commands/service.rs). The probe of mempool over HTTP is a parameter.
use btc_infra_tools.Base.{Option, none, some, List, [], ◌∷◌, String, ◌||◌, ◌==◌, if◌then◌else◌}
use btc_infra_tools.Base.Text.{◌⧺◌}
use btc_infra_tools.Base.Result.{Result, ok, err, bail, ok_or, transpose}
use btc_infra_tools.Core.Env.{EnvResolver, expand_placeholders}
use btc_infra_tools.Core.Config.{ServiceConfig}
use btc_infra_tools.Core.Usecase.{ServiceAction, start, stop, restart}
use btc_infra_tools.Adapters.World.{System, Json, Act, ◌>>=◌, lift, return, inspect}
use btc_infra_tools.Adapters.Launchd.{unit_pid}
use btc_infra_tools.Adapters.Compose.{running_container_ids}
use btc_infra_tools.Adapters.Machine
use btc_infra_tools.Adapters.Machine.{PodmanMachineStatus, status_with}

pub data RuntimeState : Type 0 where
  running stopped syncing degraded unknown : RuntimeState

pub data MempoolProbeStatus : Type 0 where
  ready : MempoolProbeStatus
  probe_syncing probe_degraded : String → MempoolProbeStatus

abbrev pub state_of_probe : MempoolProbeStatus → RuntimeState
state_of_probe ready = running
state_of_probe (probe_syncing detail) = syncing
state_of_probe (probe_degraded detail) = degraded

abbrev state_of_pid : {A : Type 0} → Result (Option A) → RuntimeState
state_of_pid (ok (some pid)) = running
state_of_pid (ok none) = stopped
state_of_pid (err e) = unknown

abbrev state_of_machine : Result PodmanMachineStatus → RuntimeState
state_of_machine (ok Machine.running) = running
state_of_machine (ok Machine.stopped) = stopped
state_of_machine (ok (Machine.degraded detail)) = degraded
state_of_machine (err e) = unknown

abbrev pub missing : String → String → String
missing service_name field = "service `" ⧺ service_name ⧺ "` is missing `" ⧺ field ⧺ "`"

unfoldable pub bring_up_action : String → String → RuntimeState → Option ServiceAction
bring_up_action service_name manager stopped = some start
bring_up_action service_name manager unknown = some start
bring_up_action service_name manager degraded =
    if service_name == "mempool" || manager == "podman_machine" then some restart else none
bring_up_action service_name manager running = none
bring_up_action service_name manager syncing = none

unfoldable pub runtime_state_label : RuntimeState → String
runtime_state_label running = "running"
runtime_state_label stopped = "stopped"
runtime_state_label syncing = "syncing"
runtime_state_label degraded = "degraded"
runtime_state_label unknown = "unknown"

unfoldable pub action_label : ServiceAction → String
action_label start = "start"
action_label stop = "stop"
action_label restart = "restart"

module _ (system : System) (json : Json) (resolver : EnvResolver)
    (probe : Act MempoolProbeStatus) where
  unfoldable pub compose_state : String → Result (List String) → Act RuntimeState
  compose_state service_name (err e) = return unknown
  compose_state service_name (ok []) = return stopped
  compose_state service_name (ok (id ∷ ids)) =
      if service_name == "mempool"
      then (probe >>= λ status. return (state_of_probe status))
      else return running

  unfoldable pub compute_runtime_state : String → ServiceConfig → Act RuntimeState
  compute_runtime_state service_name service =
      if service.manager == "launchd"
      then (lift (ok_or service.unit (missing service_name "unit")) >>= λ unit_tmpl.
          lift (expand_placeholders unit_tmpl resolver) >>= λ unit.
          inspect (unit_pid system unit) λ pid. return (state_of_pid pid))
      else if service.manager == "podman_machine"
      then (lift (ok_or service.machine (missing service_name "machine")) >>= λ machine_tmpl.
          lift (expand_placeholders machine_tmpl resolver) >>= λ machine.
          inspect (status_with system json machine) λ status. return (state_of_machine status))
      else if service.manager == "podman_compose"
      then (lift (ok_or service.compose_file (missing service_name "compose_file"))
          >>= λ compose_file_tmpl.
              lift (expand_placeholders compose_file_tmpl resolver) >>= λ compose_file.
              lift
                (transpose (λ value. expand_placeholders value resolver) service.compose_override)
              >>= λ compose_override.
                  lift (transpose (λ value. expand_placeholders value resolver) service.project)
                  >>= λ project.
                      inspect
                        (running_container_ids system json compose_file compose_override project)
                        (compose_state service_name))
      else lift (
          bail
            ("service `" ⧺ service_name ⧺ "` uses unsupported manager `" ⧺ service.manager ⧺ "`"))

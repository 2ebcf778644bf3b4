-- ===== src/Cli/Status.antt =====
-- The status reports of services (crates/infractl-cli/src/commands/service.rs). The configuration is what
-- reading and parsing its file gave, and `ui` is the text of the mode of the user interface; the
-- reports are the data and the message that are printed.
mod Tests
pub mod Counts
pub mod Agrees
use Prim.Native.String.{[], ◌∷◌}
use mathlib.Core.List.{List}
use btc_infra_tools.Base.{
  ℕ, Option, none, some, String, Char, code, Bool, true, false, ◌==◌, ltb, length, lookup, map,
  count_if, if◌then◌else◌, eqb,
}
use btc_infra_tools.Base.Int.{ℤ}
use btc_infra_tools.Base.Text.{◌⧺◌, show_ℕ}
use btc_infra_tools.Base.Result.{Error, Result, ok, err, ok_or}
use btc_infra_tools.Core.Env.{EnvResolver, expand_placeholders}
use btc_infra_tools.Core.Config.{ServiceConfig, BelterConfig}
use btc_infra_tools.Core.Usecase.{missing_field}
use btc_infra_tools.Adapters.World.{System, Json, Act, ◌>>=◌, lift, return, inspect}
use btc_infra_tools.Adapters.Launchd.{unit_pid}
use btc_infra_tools.Adapters.Machine
use btc_infra_tools.Adapters.Machine.{PodmanMachineStatus, status_with}
use btc_infra_tools.Cli.Http.{Network}
use btc_infra_tools.Cli.Runtime.{
  RuntimeState, running, stopped, degraded, unknown, runtime_state_label,
}
use btc_infra_tools.Cli.Snapshot.{
  PodmanComposeStatusSnapshot, compute_podman_compose_status_snapshot, dependent_compose_issues,
  derive_podman_runtime_state,
}

pub record ServiceStatusData : Type 0 where
  pub service : String
  pub manager : String
  pub state : String
  pub unit : Option String
  pub pid : Option ℤ
  pub compose_file : Option String
  pub compose_override : Option String
  pub project : Option String
  pub machine : Option String
  pub health_url : Option String
  pub running_containers : Option (List String)
  pub query_error : Option String

pub record AggregatedServiceStatusData : Type 0 where
  pub services : List ServiceStatusData

pub record StatusComputation : Type 0 where
  pub message : String
  pub status_data : ServiceStatusData

-- Nothing is known but the service, its manager and its state.
unfoldable pub bare_status : String → String → String → ServiceStatusData
bare_status service manager state = record {
  service = service;
  manager = manager;
  state = state;
  unit = none;
  pid = none;
  compose_file = none;
  compose_override = none;
  project = none;
  machine = none;
  health_url = none;
  running_containers = none;
  query_error = none;
}

-- The constructors of `ServiceStatusData`.
unfoldable pub launchd_status :
    String → String → String → Option ℤ → Option String → ServiceStatusData
unfolding bare_status
launchd_status service unit state pid query_error = record (bare_status service "launchd" state) {
  unit = some unit;
  pid = pid;
  query_error = query_error;
}

unfoldable pub podman_status :
    String
    → Option String
    → Option String
    → Option String
    → String
    → List String
    → Option String
    → ServiceStatusData
unfolding bare_status
podman_status service compose_file compose_override project state running_containers query_error =
    record (bare_status service "podman_compose" state) {
      compose_file = compose_file;
      compose_override = compose_override;
      project = project;
      running_containers = some running_containers;
      query_error = query_error;
    }

unfoldable pub podman_machine_status :
    String → Option String → String → Option String → ServiceStatusData
unfolding bare_status
podman_machine_status service machine state query_error =
    record (bare_status service "podman_machine" state) {
      machine = machine;
      query_error = query_error;
    }

unfoldable pub with_health : ServiceStatusData → Option String → Option String → ServiceStatusData
with_health status health_url query_error = record status {
  health_url = health_url;
  query_error = query_error;
}

-- The order of texts in Rust, by their characters.
unfoldable pub str_leq : String → String → Bool
str_leq [] t = true
str_leq (c ∷ s) [] = false
str_leq (c ∷ s) (d ∷ t) =
    let rest = str_leq s t in
    if ltb (code c) (code d) then true else if eqb (code c) (code d) then rest else false

unfoldable pub insert_name : String → List String → List String
insert_name a List.[] = List.◌∷◌ a List.[]
insert_name a (List.◌∷◌ b names) =
    let rest = insert_name a names in
    if str_leq a b then List.◌∷◌ a (List.◌∷◌ b names) else List.◌∷◌ b rest

-- `sort` of the names of the services, which are distinct.
unfoldable pub sort_names : List String → List String
sort_names List.[] = List.[]
sort_names (List.◌∷◌ a names) = insert_name a (sort_names names)

module _ (system : System) (json : Json) (network : Network) (resolver : EnvResolver)
    (config : BelterConfig) (ui : String) where
  module _ (service_name : String) where
    abbrev pub status_message : String → String
    status_message state = "status target=" ⧺ service_name ⧺ " ui=" ⧺ ui ⧺ " state=" ⧺ state

    abbrev pub computed : String → ServiceStatusData → StatusComputation
    computed state status = record { message = status_message state; status_data = status }

    -- The state, the process number and the error of a launchd unit.
    abbrev pub unit_state : Result (Option ℤ) → String × Option ℤ × Option String
    unit_state (ok none) = ("stopped", none, none)
    unit_state (ok (some pid)) = ("running", some pid, none)
    unit_state (err e) = ("unknown", none, some e.message)

    unfoldable pub launchd_computation : ServiceConfig → Act StatusComputation
    launchd_computation service =
        lift (ok_or service.unit (missing_field service_name "unit")) >>= λ unit_tmpl.
        lift (expand_placeholders unit_tmpl resolver) >>= λ unit.
        inspect (unit_pid system unit) λ result.
          let (state, pid, query_error) = unit_state result in
          return (computed state (launchd_status service_name unit state pid query_error))

    -- The data of a snapshot, in the two ways that the source makes it.
    unfoldable pub compose_data : PodmanComposeStatusSnapshot → ServiceStatusData
    compose_data snapshot =
        if service_name == "mempool"
        then with_health
            (podman_status service_name (some snapshot.compose_file) snapshot.compose_override
              snapshot.project (runtime_state_label snapshot.state) snapshot.running_containers
              none)
            snapshot.health_url snapshot.query_error
        else podman_status service_name (some snapshot.compose_file) snapshot.compose_override
            snapshot.project (runtime_state_label snapshot.state) snapshot.running_containers
            snapshot.query_error

    unfoldable pub compose_computation : ServiceConfig → Act StatusComputation
    compose_computation service =
        compute_podman_compose_status_snapshot system json network resolver service_name service
        >>= λ snapshot.
            return (computed (runtime_state_label snapshot.state) (compose_data snapshot))

    -- The `match` on the status of a machine: its state and the error.
    unfoldable pub machine_state : Result PodmanMachineStatus → Act (RuntimeState × Option String)
    machine_state (ok Machine.running) =
        dependent_compose_issues system json network resolver config service_name >>= λ issues.
        return (derive_podman_runtime_state issues)
    machine_state (ok Machine.stopped) = return (stopped, none)
    machine_state (ok (Machine.degraded detail)) = return (degraded, some detail)
    machine_state (err e) = return (unknown, some e.message)

    unfoldable pub machine_known : String → Act StatusComputation
    machine_known machine =
        inspect (status_with system json machine) machine_state >>= λ (state, query_error). return (
          computed (runtime_state_label state) (
            podman_machine_status service_name (some machine) (runtime_state_label state)
              query_error))

    unfoldable pub with_machine : String → Result String → Act StatusComputation
    with_machine machine_tmpl (ok machine) = machine_known machine
    with_machine machine_tmpl (err e) = return (
        computed "unknown"
          (podman_machine_status service_name (some machine_tmpl) "unknown" (some e.message)))

    unfoldable pub machine_computation : ServiceConfig → Act StatusComputation
    machine_computation service =
        lift (ok_or service.machine (missing_field service_name "machine")) >>= λ machine_tmpl.
        with_machine machine_tmpl (expand_placeholders machine_tmpl resolver)

    unfoldable pub compute_status : ServiceConfig → Act StatusComputation
    compute_status service =
        if service.manager == "launchd"
        then launchd_computation service
        else if service.manager == "podman_compose"
        then compose_computation service
        else if service.manager == "podman_machine"
        then machine_computation service
        else return (record {
          message =
              "status target=" ⧺ service_name ⧺ " ui=" ⧺ ui ⧺ " manager=" ⧺ service.manager
              ⧺ " (real status not implemented)";
          status_data = bare_status service_name service.manager "unknown";
        })

  -- The loop of `emit_status_all` over the names.
  unfoldable pub compute_all :
      List (String × ServiceConfig) → List String → Act (List StatusComputation)
  compute_all services List.[] = return List.[]
  compute_all services (List.◌∷◌ name names) =
      let rest = compute_all services names in
      lift (ok_or (lookup name services) ("service `" ⧺ name ⧺ "` not found in config"))
      >>= λ service.
          compute_status name service >>= λ one. rest >>= λ others. return (List.◌∷◌ one others)

  -- `filter(|item| item.status_data.state == state).count()`
  abbrev pub count_state : String → List StatusComputation → ℕ
  count_state state items = count_if (λ item. item.status_data.state == state) items

  unfoldable pub all_message : List StatusComputation → String
  all_message items =
      "status target=all ui="
      ⧺ ui
      ⧺ " services="
      ⧺ show_ℕ (length items)
      ⧺ " running="
      ⧺ show_ℕ (count_state "running" items)
      ⧺ " stopped="
      ⧺ show_ℕ (count_state "stopped" items)
      ⧺ " syncing="
      ⧺ show_ℕ (count_state "syncing" items)
      ⧺ " degraded="
      ⧺ show_ℕ (count_state "degraded" items)
      ⧺ " unknown="
      ⧺ show_ℕ (count_state "unknown" items)

  -- `emit_status_all` that is not a dry run: the message and the data that it prints.
  unfoldable pub status_all : Act (String × AggregatedServiceStatusData)
  status_all = lift (ok_or config.service "missing [service] section") >>= λ services.
      compute_all services (sort_names (map (λ (name, service). name) services)) >>= λ items.
      return (all_message items, record { services = map (λ item. item.status_data) items })

  -- `emit_status` that is not a dry run: the status that it prints.
  unfoldable pub status_one : String → Act StatusComputation
  status_one service_name = lift (ok_or config.service "missing [service] section") >>= λ services.
      lift (
        ok_or (lookup service_name services) ("service `" ⧺ service_name ⧺ "` not found in config"))
      >>= λ service. compute_status service_name service

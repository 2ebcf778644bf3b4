-- ===== src/Cli/Status/Tests.antt =====
-- The theorems about the status of services, at a service of launchd and one of podman compose
-- (crates/infractl-cli/src/commands/service.rs).
use mathlib.Core.List.{[], ◌∷◌}
use btc_infra_tools.Base.{String, ◌≡◌, refl, none, some}
use btc_infra_tools.Base.Result.{Result, ok, err}
use btc_infra_tools.Core.Env.{EnvResolver, fixed_resolver, expand_placeholders}
use btc_infra_tools.Core.Config.{ServiceConfig, BelterConfig}
use btc_infra_tools.Adapters.World.{Trace, ◌>>=◌, lift, inspect, command}
use btc_infra_tools.Adapters.Samples.{willing, text_json}
use btc_infra_tools.Cli.Http.{Network}
use btc_infra_tools.Cli.Runtime.{compute_runtime_state}
use btc_infra_tools.Cli.Readiness.{probe_mempool_status}
use btc_infra_tools.Cli.Snapshot.{
  compute_podman_compose_status_snapshot, with_file, with_override, with_project, judge_containers,
}
use btc_infra_tools.Cli.Status.{
  AggregatedServiceStatusData, sort_names, status_all, compute_all, insert_name, str_leq,
  compute_status, compose_computation, launchd_computation,
}
use btc_infra_tools.Cli.Status.Counts.{Reported, status_all-Reported}
use btc_infra_tools.Cli.Status.Agrees.{Matches, compute_podman_compose_status_snapshot-Matches}
use btc_infra_tools.Adapters.Compose.{
  running_container_ids, run_compose_capture, keep_running, container_is_running, running_state,
}
use btc_infra_tools.Adapters.Launchd.{split_lines}
use btc_infra_tools.Base.Text.{trim}

abbrev silent : Network
silent = record {
  connect = λ t host port. ok tt;
  set_read_timeout = λ t. ok tt;
  set_write_timeout = λ t. ok tt;
  write_all = λ t request. ok tt;
  read_line = λ t. ok "";
}

abbrev nothing_set : EnvResolver
nothing_set = fixed_resolver []

abbrev compose_service : ServiceConfig
compose_service = record {
  manager = "podman_compose";
  unit = none;
  compose_file = some "compose.yml";
  compose_override = none;
  project = none;
  env_file = none;
  machine = none;
  depends_on = none;
}

abbrev unit_service : ServiceConfig
unit_service = record {
  manager = "launchd";
  unit = some "system/stratum";
  compose_file = none;
  compose_override = none;
  project = none;
  env_file = none;
  machine = none;
  depends_on = none;
}

abbrev two_services : BelterConfig
two_services = record {
  service = some (("stratum", unit_service) ∷ ("electrs", compose_service) ∷ []);
}

abbrev reported : Result (String × AggregatedServiceStatusData) × Trace
reported = status_all willing text_json silent nothing_set two_services "plain" []

abbrev nothing_reported : String × AggregatedServiceStatusData
nothing_reported = ("", record { services = [] })

abbrev given : Result (String × AggregatedServiceStatusData) → String × AggregatedServiceStatusData
given (ok report) = report
given (err e) = nothing_reported

reports : reported.0 ≡ ok (given reported.0)
unfolding status_all ◌>>=◌ lift compute_all sort_names insert_name str_leq compute_status
    compose_computation compute_podman_compose_status_snapshot with_file expand_placeholders
    with_override with_project inspect judge_containers running_container_ids run_compose_capture
    command keep_running split_lines trim container_is_running running_state launchd_computation
reports = refl

status_all-Reported_example :
    Reported willing text_json silent nothing_set two_services "plain"
      (given reported.0).0
      (given reported.0).1
status_all-Reported_example =
    status_all-Reported willing text_json silent nothing_set two_services "plain" []
      (given reported.0).0 (given reported.0).1 reports

compute_podman_compose_status_snapshot-Matches_example :
    Matches
      (compute_runtime_state willing text_json nothing_set
        (probe_mempool_status nothing_set silent)
        "electrs"
        compose_service
        [])
      (compute_podman_compose_status_snapshot willing text_json silent nothing_set "electrs"
        compose_service [])
compute_podman_compose_status_snapshot-Matches_example =
    compute_podman_compose_status_snapshot-Matches willing text_json silent nothing_set "electrs"
      compose_service [] refl

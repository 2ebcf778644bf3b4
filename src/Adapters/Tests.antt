-- ===== src/Adapters/Tests.antt =====
-- The theorems about the adapters, at a system in which every command succeeds.
use btc_infra_tools.Base.{◌+◌, ◌≤◌, ◌≡◌, refl, none, List, [], ◌∷◌}
use btc_infra_tools.Base.Text.{trim, strip_prefix}
use btc_infra_tools.Base.Result.{ok}
use btc_infra_tools.Core.Plan.{
  ExecutionReport, Plan, start_podman_machine, restart_launchd_service, launchd_restart_pid_change,
}
use btc_infra_tools.Adapters.World.{◌>>=◌, lift, inspect, command}
use btc_infra_tools.Adapters.Inspection.{
  eq_ignore_ascii_case, inspection_of, parse_podman_machine_inspection,
}
use btc_infra_tools.Adapters.Launchd.{
  run_launchctl, unit_pid, restart_unit, parse_launchctl_pid, find_pid, line_pid, split_lines,
}
use btc_infra_tools.Adapters.Machine.{
  run_podman, run_machine_with, probe_api, status_with, handle_status, await_ready, start_with,
  start,
}
use btc_infra_tools.Adapters.Machine.Saw.{SawRunning}
use btc_infra_tools.Adapters.Machine.Ready.{start_with-SawRunning}
use btc_infra_tools.Adapters.Machine.Bounds.{starts, checks, sleeps, start_with-bounds}
use btc_infra_tools.Adapters.Executor.{execute_operation, execute_from, execute}
use btc_infra_tools.Adapters.Executor.Reports.{operation_indices, restart_indices, execute-indices}
use btc_infra_tools.Adapters.Samples.{willing, text_json}

start_with-willing : (start_with willing text_json "podman-machine-default" "start" []).0 ≡ ok tt
unfolding start_with run_machine_with run_podman command await_ready inspect status_with
    parse_podman_machine_inspection inspection_of eq_ignore_ascii_case probe_api handle_status trim
    ◌>>=◌ lift
start_with-willing = refl

start_with-SawRunning_example :
    SawRunning willing text_json "podman-machine-default"
      (start_with willing text_json "podman-machine-default" "start" []).1
start_with-SawRunning_example =
    start_with-SawRunning willing text_json "podman-machine-default" "start" [] start_with-willing

start_with-bounds_example :
    (starts (start_with willing text_json "podman-machine-default" "start" []).1 ≤ starts [] + 2)
    × (checks (start_with willing text_json "podman-machine-default" "start" []).1 ≤ checks [] + 15)
    × (sleeps (start_with willing text_json "podman-machine-default" "start" []).1 ≤ sleeps [] + 14)
start_with-bounds_example = start_with-bounds willing text_json "podman-machine-default" "start" []

abbrev two_operations : Plan
two_operations = record {
  operations =
      start_podman_machine "podman-machine-default" ∷ restart_launchd_service "system/node" ∷ [];
}

abbrev one_report : List ExecutionReport
one_report =
    record { operation_index = 2; details = launchd_restart_pid_change "system/node" none none }
    ∷ []

execute-willing : (execute willing text_json two_operations []).0 ≡ ok one_report
unfolding execute execute_from execute_operation start start_with run_machine_with run_podman
    command await_ready inspect status_with parse_podman_machine_inspection inspection_of
    eq_ignore_ascii_case probe_api handle_status trim restart_unit unit_pid run_launchctl
    parse_launchctl_pid find_pid line_pid split_lines strip_prefix ◌>>=◌ lift
execute-willing = refl

execute-indices_example : operation_indices one_report ≡ restart_indices 1 two_operations.operations
execute-indices_example =
    execute-indices willing text_json two_operations [] one_report execute-willing

-- ===== src/Cli/Execution/Tests.antt =====
-- The theorems about the execution of a bring-up and about the readiness of mempool, where a launchd
-- unit is mempool, and its HTTP server answers 200
-- (crates/infractl-cli/src/commands/service.rs).
use btc_infra_tools.Base.{◌≡◌, ◌≤◌, ◌+◌, refl, none, some, [], ◌∷◌, true, false}
use btc_infra_tools.Base.Result.{Result, ok, err}
use btc_infra_tools.Base.Text.{strip_prefix, split_once, trim}
use btc_infra_tools.Watchdog.Events.{split_whitespace}
use btc_infra_tools.Core.Env.{EnvResolver, fixed_resolver, expand_placeholders}
use btc_infra_tools.Core.Config.{BelterConfig, service_by_name}
use btc_infra_tools.Core.Usecase.{
  start, plan, service_operation, manager_operation, launchd_operation,
}
use btc_infra_tools.Adapters.World.{Trace, ◌>>=◌, lift, inspect, command}
use btc_infra_tools.Adapters.Launchd.{
  unit_pid, start_unit, run_launchctl, parse_launchctl_pid, find_pid, line_pid, split_lines,
}
use btc_infra_tools.Adapters.Executor.{execute, execute_from, execute_operation}
use btc_infra_tools.Adapters.Samples.{willing, text_json}
use btc_infra_tools.Cli.Order.{resolve_bring_up_order, visit_dependency, visit_all, close}
use btc_infra_tools.Cli.Http.{
  Network, parse_u16, u16_number, u16_digits, trim_line_ends, authority_of, parse_authority,
  parse_http_url, parse_http_status_code, validate_http_status, first_line, exchange,
  probe_http_status, probe_http_200,
}
use btc_infra_tools.Cli.Runtime.{bring_up_action, compute_runtime_state}
use btc_infra_tools.Cli.BringUp.{
  build_bring_up_plan, plan_services, live_service, act_on, operations_of,
}
use btc_infra_tools.Cli.Readiness.{
  mempool_url, mempool_health_url, classify_mempool_fees_status, probe_paths, after_fees,
  probe_fees, probe_mempool_status, judge_attempt, poll_readiness, wait_for_mempool_readiness,
}
use btc_infra_tools.Cli.Readiness.Reached.{Reached, wait_for_mempool_readiness-Reached}
use btc_infra_tools.Cli.Readiness.Bounds.{
  requests, seconds_slept, wait_for_mempool_readiness-bounds,
}
use btc_infra_tools.Cli.Environment.{
  Environment, read_environment, maybe_load_service_env_file, load_service_env, load_env_files,
}
use btc_infra_tools.Cli.Recovery.{recover_mempool_readiness_if_needed}
use btc_infra_tools.Cli.Execution.{
  PlanExecutionResult, ordered_services, await_mempool, run_bring_up, initial_runtime_state,
  execute_service_command_from_config, execute_service_bring_up_from_config,
}
use btc_infra_tools.Cli.Execution.Served.{Served, execute_service_bring_up_from_config-Served}
use btc_infra_tools.Cli.Execution.Dry.{Loads, dry_runs-Loads}

abbrev answering : Network
answering = record {
  connect = λ t host port. ok tt;
  set_read_timeout = λ t. ok tt;
  set_write_timeout = λ t. ok tt;
  write_all = λ t request. ok tt;
  read_line = λ t. ok "HTTP/1.1 200 OK\r\n";
}

abbrev nowhere : EnvResolver
nowhere = fixed_resolver []

abbrev empty_environment : Environment
empty_environment = record { resolver = λ t. nowhere; from_filename_override = λ t path. ok tt }

abbrev unit_config : BelterConfig
unit_config = record {
  service = some (
      (
        "mempool",
        record {
          manager = "launchd";
          unit = some "system/mempool";
          compose_file = none;
          compose_override = none;
          project = none;
          env_file = none;
          machine = none;
          depends_on = none;
        },
      )
      ∷ []);
}

waits : (wait_for_mempool_readiness nowhere answering []).0 ≡ ok tt
unfolding wait_for_mempool_readiness poll_readiness judge_attempt probe_mempool_status probe_fees
    after_fees probe_paths classify_mempool_fees_status mempool_health_url mempool_url
    probe_http_200 probe_http_status exchange first_line validate_http_status parse_http_status_code
    parse_http_url parse_authority authority_of trim_line_ends parse_u16 u16_number u16_digits
    fixed_resolver ◌>>=◌ lift inspect strip_prefix split_once split_whitespace
waits = refl

wait_for_mempool_readiness-Reached_example :
    Reached nowhere (wait_for_mempool_readiness nowhere answering []).1
wait_for_mempool_readiness-Reached_example =
    wait_for_mempool_readiness-Reached nowhere answering [] waits

dry_runs-Loads_example :
    Loads []
      (execute_service_command_from_config willing text_json answering empty_environment
        (ok unit_config)
        "mempool"
        start
        true
        []).1
    × Loads []
        (execute_service_bring_up_from_config willing text_json answering empty_environment
          (ok unit_config)
          "mempool"
          true
          []).1
dry_runs-Loads_example =
    dry_runs-Loads willing text_json answering empty_environment (ok unit_config) "mempool" start []

abbrev brought_up : Result PlanExecutionResult × Trace
brought_up =
    execute_service_bring_up_from_config willing text_json answering empty_environment
      (ok unit_config) "mempool" false []

abbrev no_result : PlanExecutionResult
no_result = record {
  plan = record { operations = [] };
  message = "";
  execution_report = [];
  events = [];
}

abbrev given : Result PlanExecutionResult → PlanExecutionResult
given (ok result) = result
given (err e) = no_result

abbrev the_result : PlanExecutionResult
the_result = given brought_up.0

brings_up : brought_up ≡ (ok the_result, brought_up.1)
unfolding execute_service_bring_up_from_config ◌>>=◌ lift ordered_services resolve_bring_up_order
    visit_dependency service_by_name visit_all load_env_files close maybe_load_service_env_file
    load_service_env read_environment initial_runtime_state compute_runtime_state
    expand_placeholders inspect build_bring_up_plan plan_services live_service act_on
    bring_up_action unit_pid command parse_launchctl_pid find_pid split_lines line_pid trim
    operations_of plan service_operation manager_operation launchd_operation run_bring_up execute
    execute_from execute_operation start_unit run_launchctl await_mempool
    recover_mempool_readiness_if_needed wait_for_mempool_readiness poll_readiness
    probe_mempool_status probe_http_200 probe_http_status parse_http_url mempool_health_url
    mempool_url fixed_resolver parse_authority parse_u16 u16_number u16_digits exchange first_line
    parse_http_status_code split_whitespace trim_line_ends validate_http_status probe_fees
    after_fees classify_mempool_fees_status probe_paths judge_attempt
brings_up = refl

execute_service_bring_up_from_config-Served_example :
    Served willing text_json answering empty_environment
      (ok unit_config)
      "mempool"
      []
      the_result
      brought_up.1
execute_service_bring_up_from_config-Served_example =
    execute_service_bring_up_from_config-Served willing text_json answering empty_environment
      (ok unit_config) "mempool" [] the_result brought_up.1 brings_up

wait_for_mempool_readiness-bounds_example :
    (requests (wait_for_mempool_readiness nowhere answering []).1 ≤ requests [] + 20)
    × (seconds_slept (wait_for_mempool_readiness nowhere answering []).1 ≤ seconds_slept [] + 15)
wait_for_mempool_readiness-bounds_example = wait_for_mempool_readiness-bounds nowhere answering []

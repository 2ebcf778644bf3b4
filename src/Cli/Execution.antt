-- ===== src/Cli/Execution.antt =====
-- The execution of a service command and of a bring-up
-- (crates/infractl-cli/src/commands/service.rs). The configuration is what reading and parsing its file
-- gave; the lines of a dry run go to a sink.
mod Tests
pub mod Served
pub mod Dry
use btc_infra_tools.Base.{
  Option, none, some, List, [], ◌∷◌, map, String, Bool, true, false, not, ◌&&◌, ◌==◌, ◌≢◌, refl,
  if◌then◌else◌, unwrap_or,
}
use btc_infra_tools.Base.Int.{ℤ, eq_ℤ, show_ℤ}
use btc_infra_tools.Base.Text.{◌⧺◌}
use btc_infra_tools.Base.Result.{Result, ok}
use btc_infra_tools.Base.Fuel.{Fueled}
use btc_infra_tools.Core.Env.{EnvResolver}
use btc_infra_tools.Core.Config.{BelterConfig}
use btc_infra_tools.Core.Plan.{
  Operation, Plan, ExecutionReport, ExecutionDetails, launchd_restart_pid_change,
}
use btc_infra_tools.Core.Usecase.{ServiceAction, start, stop, restart, plan}
use btc_infra_tools.Adapters.World.{System, Json, Act, ◌>>=◌, ◌>>◌, lift, return}
use btc_infra_tools.Adapters.Executor.{execute, dry_run}
use btc_infra_tools.Cli.Order.{resolve_bring_up_order}
use btc_infra_tools.Cli.Order.Enough.{resolve_bring_up_order-ne-none}
use btc_infra_tools.Cli.Http.{Network}
use btc_infra_tools.Cli.Runtime.{RuntimeState, unknown, action_label}
use btc_infra_tools.Cli.BringUp.{InfoEvent, BringUpPlan, build_bring_up_plan}
use btc_infra_tools.Cli.Readiness.{mempool_health_url, probe_mempool_status}
use btc_infra_tools.Cli.Environment.{
  Environment, read_environment, maybe_load_service_env_file, load_env_files,
}
use btc_infra_tools.Cli.Recovery.{
  OutputEvent, info, Progress, note, state_now, waiting_event, recover_mempool_readiness_if_needed,
}

pub record PlanExecutionResult : Type 0 where
  pub plan : Plan
  pub message : String
  pub execution_report : List ExecutionReport
  pub events : List OutputEvent

-- The event of a plan with its level.
abbrev pub with_level : InfoEvent → OutputEvent
with_level event = record {
  level = info;
  code = event.code;
  message = event.message;
  details = event.details;
}

abbrev pub is_restart_observed : Option ℤ → Option ℤ → Bool
is_restart_observed (some before) (some after) = not (eq_ℤ before after)
is_restart_observed _ _ = false

abbrev pub show_pid : Option ℤ → String
show_pid none = "unknown"
show_pid (some pid) = show_ℤ pid

unfoldable pub observed_message : String → ExecutionDetails → String
observed_message base (launchd_restart_pid_change unit pid_before pid_after) =
    base
    ⧺ " (restart observed: "
    ⧺ (if is_restart_observed pid_before pid_after then "yes" else "no")
    ⧺ ", pid before: "
    ⧺ show_pid pid_before
    ⧺ ", pid after: "
    ⧺ show_pid pid_after
    ⧺ ")"

abbrev pub base_message : String → ServiceAction → String
base_message service_name start = "started service `" ⧺ service_name ⧺ "`"
base_message service_name stop = "stopped service `" ⧺ service_name ⧺ "`"
base_message service_name restart = "restart requested for service `" ⧺ service_name ⧺ "`"

-- Every report is about the restart of a launchd unit, so that the first one is printed.
unfoldable pub execution_message : String → ServiceAction → List ExecutionReport → String
execution_message service_name action [] = base_message service_name action
execution_message service_name action (report ∷ reports) =
    observed_message (base_message service_name action) report.details

-- `join(", ")`
abbrev pub join : List String → String
join [] = ""
join (x ∷ []) = x
join (x ∷ y ∷ ys) = x ⧺ ", " ⧺ join (y ∷ ys)

-- A result that is there.
abbrev result_of : {A : Type 0} (r : Fueled A) → r ≢ none → Result A
result_of none there = absurd (there refl)
result_of (some r) there = r

-- The order of a bring-up, which is always found or refused.
unfoldable pub ordered_services : BelterConfig → String → Result (List String)
ordered_services config service_name =
    result_of (resolve_bring_up_order config service_name)
      (resolve_bring_up_order-ne-none config service_name)

module _ (system : System) (json : Json) (network : Network) (environment : Environment)
    (loaded_config : Result BelterConfig) where
  -- `DryRunExecutor::sink`, which writes nothing and does not fail.
  unfoldable pub execute_in_sink : Plan → Act (List ExecutionReport)
  execute_in_sink made = lift (dry_run system.debug_text (λ line. ok tt) made).0

  unfoldable pub run_command : String → ServiceAction → Bool → Plan → Act PlanExecutionResult
  run_command service_name action true made = execute_in_sink made >>= λ reports. return (record {
    plan = made;
    message = "would " ⧺ action_label action ⧺ " service `" ⧺ service_name ⧺ "`";
    execution_report = [];
    events = [];
  })
  run_command service_name action false made = execute system json made >>= λ reports.
      return (record {
        plan = made;
        message = execution_message service_name action reports;
        execution_report = reports;
        events = [];
      })

  unfoldable pub execute_service_command_from_config :
      String → ServiceAction → Bool → Act PlanExecutionResult
  execute_service_command_from_config service_name action dry = lift loaded_config >>= λ config.
      maybe_load_service_env_file environment config service_name
      >> (read_environment environment >>= λ resolver.
          lift (
            plan (record { config = config; service_name = service_name; action = action })
              resolver)
          >>= λ made. run_command service_name action dry made)

  -- The readiness of mempool after the plan was executed, and the events about it.
  unfoldable pub await_mempool :
      EnvResolver → BelterConfig → String → Option RuntimeState → Progress → Act Progress
  await_mempool resolver config service_name initial_state progress =
      if service_name == "mempool"
      then (recover_mempool_readiness_if_needed system json network resolver config service_name
            (unwrap_or initial_state unknown)
            (note (waiting_event system json network resolver config) progress)
          >>= λ recovered. return (
              note
                (record {
                  level = info;
                  code = "bring_up.ready";
                  message = "mempool HTTP readiness reached";
                  details = ("health_url", mempool_health_url resolver) ∷ [];
                })
                recovered))
      else return progress

  abbrev pub named_with : String → String → List String → String
  named_with before service_name ordered =
      before ⧺ service_name ⧺ "` (dependencies: " ⧺ join ordered ⧺ ")"

  unfoldable pub run_bring_up :
      EnvResolver
      → BelterConfig
      → String
      → Bool
      → List String
      → Option RuntimeState
      → BringUpPlan
      → Act PlanExecutionResult
  run_bring_up resolver config service_name true ordered initial_state bring_up =
      execute_in_sink bring_up.plan >>= λ reports. return (record {
        plan = bring_up.plan;
        message = named_with "would bring up service `" service_name ordered;
        execution_report = [];
        events = map with_level bring_up.events;
      })
  run_bring_up resolver config service_name false ordered initial_state bring_up =
      execute system json bring_up.plan >>= λ reports.
      await_mempool resolver config service_name initial_state (record {
        operations = bring_up.plan.operations;
        execution_report = reports;
        events = map with_level bring_up.events;
      })
      >>= λ progress. return (record {
        plan = record { operations = progress.operations };
        message = named_with "bring-up completed for service `" service_name ordered;
        execution_report = progress.execution_report;
        events = progress.events;
      })

  -- The state of the service before a bring-up that is not a dry run.
  unfoldable pub initial_runtime_state :
      EnvResolver → BelterConfig → String → Bool → Act (Option RuntimeState)
  initial_runtime_state resolver config service_name true = return none
  initial_runtime_state resolver config service_name false =
      state_now system json network resolver config service_name >>= λ state. return (some state)

  unfoldable pub execute_service_bring_up_from_config : String → Bool → Act PlanExecutionResult
  execute_service_bring_up_from_config service_name dry = lift loaded_config >>= λ config.
      lift (ordered_services config service_name) >>= λ ordered.
      load_env_files environment config ordered
      >> (read_environment environment >>= λ resolver.
          initial_runtime_state resolver config service_name dry >>= λ initial_state.
          build_bring_up_plan system json resolver (probe_mempool_status resolver network) config
            ordered dry
          >>= λ bring_up.
              run_bring_up resolver config service_name dry ordered initial_state bring_up)

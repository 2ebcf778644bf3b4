-- ===== src/Cli/Recovery.antt =====
-- The recovery of a bring-up whose service does not become ready
-- (crates/infractl-cli/src/commands/service.rs). What the source changes through its
-- `MempoolBringUpRecoveryCtx` is passed on as `Progress`; events are without their time stamps.
pub mod Repaired
use btc_infra_tools.Base.{
  Option, none, some, List, [], ◌∷◌, ◌++◌, String, Bool, false, ◌==◌, if◌then◌else◌,
}
use btc_infra_tools.Base.Text.{◌⧺◌}
use btc_infra_tools.Base.Result.{Error, Result, ok, err, ok_or}
use btc_infra_tools.Core.Env.{EnvResolver}
use btc_infra_tools.Core.Config.{BelterConfig, service_by_name}
use btc_infra_tools.Core.Plan.{Operation, ExecutionReport}
use btc_infra_tools.Core.Usecase.{ServiceAction, start, restart, plan}
use btc_infra_tools.Adapters.World.{System, Json, Act, ◌>>=◌, lift, return, inspect}
use btc_infra_tools.Adapters.Executor.{execute}
use btc_infra_tools.Cli.Http.{Network}
use btc_infra_tools.Cli.Runtime.{
  RuntimeState, running, stopped, syncing, degraded, unknown, runtime_state_label, action_label,
  compute_runtime_state,
}
use btc_infra_tools.Cli.Readiness.{
  mempool_health_url, probe_mempool_status, wait_for_mempool_readiness,
}

pub data SeverityLevel : Type 0 where
  info warning : SeverityLevel

pub record OutputEvent : Type 0 where
  pub level : SeverityLevel
  pub code : String
  pub message : String
  pub details : List (String × String)

-- The accumulated plan, the execution report and the events.
pub record Progress : Type 0 where
  pub operations : List Operation
  pub execution_report : List ExecutionReport
  pub events : List OutputEvent

unfoldable pub note : OutputEvent → Progress → Progress
note event progress = record progress { events = progress.events ++ event ∷ [] }

unfoldable pub bring_up_retry_action_after_failed_readiness :
    String → RuntimeState → Option ServiceAction
bring_up_retry_action_after_failed_readiness service_name unknown =
    if service_name == "mempool" then some restart else none
bring_up_retry_action_after_failed_readiness service_name running = none
bring_up_retry_action_after_failed_readiness service_name stopped = none
bring_up_retry_action_after_failed_readiness service_name syncing = none
bring_up_retry_action_after_failed_readiness service_name degraded = none

unfoldable pub bring_up_runtime_retry_action_after_failed_readiness :
    RuntimeState → Option ServiceAction
bring_up_runtime_retry_action_after_failed_readiness degraded = some restart
bring_up_runtime_retry_action_after_failed_readiness running = none
bring_up_runtime_retry_action_after_failed_readiness stopped = none
bring_up_runtime_retry_action_after_failed_readiness syncing = none
bring_up_runtime_retry_action_after_failed_readiness unknown = none

unfoldable pub is_machine_service : BelterConfig → String → Bool
is_machine_service config name = elim (service_by_name config name) [
  | none ↦ false
  | some service ↦ service.manager == "podman_machine"
]

unfoldable pub find_machine_service : BelterConfig → List String → Option String
find_machine_service config [] = none
find_machine_service config (name ∷ names) =
    let rest = find_machine_service config names in
    if is_machine_service config name then some name else rest

unfoldable pub bring_up_runtime_recovery_service : BelterConfig → String → Option String
bring_up_runtime_recovery_service config service_name = elim (service_by_name config service_name) [
  | none ↦ none
  | some service ↦ elim service.depends_on [
    | none ↦ none
    | some names ↦ find_machine_service config names
  ]
]

module _ (system : System) (json : Json) (network : Network) (resolver : EnvResolver)
    (config : BelterConfig) where
  unfoldable pub execute_service_action : String → ServiceAction → Progress → Act Progress
  execute_service_action service_name action progress =
      lift
        (plan (record { config = config; service_name = service_name; action = action }) resolver)
      >>= λ action_plan. execute system json action_plan >>= λ reports. return (record progress {
        operations = progress.operations ++ action_plan.operations;
        execution_report = progress.execution_report ++ reports;
      })

  -- The state of a service, with the probe over this network.
  abbrev pub state_now : String → Act RuntimeState
  state_now service_name =
      lift (
        ok_or (service_by_name config service_name)
          ("service `" ⧺ service_name ⧺ "` not found in config"))
      >>= λ service.
          compute_runtime_state system json resolver (probe_mempool_status resolver network)
            service_name service

  abbrev pub waiting_event : OutputEvent
  waiting_event = record {
    level = info;
    code = "bring_up.waiting_readiness";
    message = "waiting for mempool HTTP readiness";
    details = ("health_url", mempool_health_url resolver) ∷ [];
  }

  module _ (service_name : String) where
    -- What the wait leaves of an error.
    unfoldable pub wait_again : Progress → Act (Option Error × Progress)
    wait_again progress = inspect (wait_for_mempool_readiness resolver network) λ result.
        elim result [ ok done ↦ return (none, progress) | err e ↦ return (some e, progress) ]

    unfoldable pub retry_service :
        RuntimeState → Error → Option ServiceAction → Progress → Act (Option Error × Progress)
    retry_service initial_state previous_error none progress =
        return (some previous_error, progress)
    retry_service initial_state previous_error (some action) progress =
        execute_service_action service_name action (
          note
            (record {
              level = warning;
              code = "bring_up.readiness_retry";
              message =
                  "mempool readiness failed after "
                  ⧺ action_label start
                  ⧺ "; retrying with "
                  ⧺ action_label action;
              details =
                  ("service", service_name)
                  ∷ ("initial_state", runtime_state_label initial_state)
                  ∷ ("health_url", mempool_health_url resolver)
                  ∷ ("previous_error", previous_error.message)
                  ∷ ("retry_action", action_label action)
                  ∷ [];
            })
            progress)
        >>= λ done. wait_again (note waiting_event done)

    unfoldable pub retry_mempool_service_after_failed_readiness :
        RuntimeState → Error → Progress → Act (Option Error × Progress)
    retry_mempool_service_after_failed_readiness initial_state previous_error progress =
        retry_service initial_state previous_error
          (bring_up_retry_action_after_failed_readiness service_name initial_state) progress

    unfoldable pub retry_runtime :
        String → RuntimeState → Error → Option ServiceAction → Progress → Act Progress
    retry_runtime runtime_name runtime_state previous_error none progress =
        lift (err previous_error)
    retry_runtime runtime_name runtime_state previous_error (some action) progress =
        execute_service_action runtime_name action (
          note
            (record {
              level = warning;
              code = "bring_up.runtime_recovery";
              message =
                  "mempool readiness still failing; retrying by "
                  ⧺ action_label action
                  ⧺ " `"
                  ⧺ runtime_name
                  ⧺ "`";
              details =
                  ("service", service_name)
                  ∷ ("runtime_service", runtime_name)
                  ∷ ("runtime_state", runtime_state_label runtime_state)
                  ∷ ("health_url", mempool_health_url resolver)
                  ∷ ("previous_error", previous_error.message)
                  ∷ ("retry_action", action_label action)
                  ∷ [];
            })
            progress)
        >>= λ restarted.
            execute_service_action service_name start (
              note
                (record {
                  level = info;
                  code = "bring_up.service_reapply";
                  message = "reapplying mempool after runtime recovery";
                  details = ("service", service_name) ∷ ("runtime_service", runtime_name) ∷ [];
                })
                restarted)
            >>= λ reapplied. wait_for_mempool_readiness resolver network >>= λ done.
                return (note waiting_event reapplied)

    unfoldable pub retry_mempool_runtime_after_failed_readiness : Error → Progress → Act Progress
    retry_mempool_runtime_after_failed_readiness previous_error progress =
        elim (bring_up_runtime_recovery_service config service_name) [
          | none ↦ lift (err previous_error)
          | some runtime_name ↦ state_now runtime_name >>= λ state.
              retry_runtime runtime_name state previous_error
                (bring_up_runtime_retry_action_after_failed_readiness state) progress
        ]

    -- After the retry of the service.
    unfoldable pub recover_runtime : Option Error → Progress → Act Progress
    recover_runtime none progress = return progress
    recover_runtime (some e) progress = retry_mempool_runtime_after_failed_readiness e progress

    unfoldable pub recover_mempool_readiness_if_needed : RuntimeState → Progress → Act Progress
    recover_mempool_readiness_if_needed initial_state progress =
        inspect (wait_for_mempool_readiness resolver network) λ result. elim result [
          | ok done ↦ return progress
          | err e ↦
              retry_mempool_service_after_failed_readiness initial_state e progress
              >>= λ (error, retried). recover_runtime error retried
        ]

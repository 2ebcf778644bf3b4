-- ===== src/Cli/BringUp.antt =====
-- The plan of a bring-up (crates/infractl-cli/src/commands/service.rs). The events are without their time
-- stamps, and their details are texts by their names.
pub mod Planned
use btc_infra_tools.Base.{
  Option, none, some, List, [], ◌∷◌, ◌++◌, String, Bool, true, false, if◌then◌else◌,
}
use btc_infra_tools.Base.Text.{◌⧺◌}
use btc_infra_tools.Base.Result.{Result, ok, err, ok_or}
use btc_infra_tools.Core.Env.{EnvResolver}
use btc_infra_tools.Core.Config.{ServiceConfig, BelterConfig, service_by_name}
use btc_infra_tools.Core.Plan.{Operation, Plan}
use btc_infra_tools.Core.Usecase.{ServiceAction, start, ServiceCommandRequest, plan}
use btc_infra_tools.Adapters.World.{System, Json, Act, ◌>>=◌, lift, return}
use btc_infra_tools.Cli.Runtime.{
  RuntimeState, MempoolProbeStatus, bring_up_action, runtime_state_label, action_label,
  compute_runtime_state,
}

-- An `OutputEvent` of the level `Info`, without its time stamp.
pub record InfoEvent : Type 0 where
  pub code : String
  pub message : String
  pub details : List (String × String)

pub record BringUpPlan : Type 0 where
  pub plan : Plan
  pub events : List InfoEvent

module _ (system : System) (json : Json) (resolver : EnvResolver) (probe : Act MempoolProbeStatus)
    (config : BelterConfig) where
  -- The plan of a service command, and the operations of it.
  unfoldable pub operations_of : String → ServiceAction → Result (List Operation)
  operations_of service_name action =
      elim (plan (record { config = config; service_name = service_name; action = action })
        resolver) [ err e ↦ err e | ok made ↦ ok made.operations ]

  -- The body of the loop: the operations and the event that it appends.
  unfoldable pub dry_service : String → Act (List Operation × InfoEvent)
  dry_service service_name = lift (operations_of service_name start) >>= λ operations. return (
    operations,
    record {
      code = "bring_up.plan_start";
      message = "would start `" ⧺ service_name ⧺ "`";
      details = ("service", service_name) ∷ [];
    },
  )

  unfoldable pub act_on :
      String → RuntimeState → Option ServiceAction → Act (List Operation × InfoEvent)
  act_on service_name state none = return (
    [],
    record {
      code = "bring_up.skipped";
      message = "`" ⧺ service_name ⧺ "` already healthy; skipping";
      details = ("service", service_name) ∷ ("state", runtime_state_label state) ∷ [];
    },
  )
  act_on service_name state (some action) =
      lift (operations_of service_name action) >>= λ operations. return (
        operations,
        record {
          code = "bring_up.applying";
          message = action_label action ⧺ " `" ⧺ service_name ⧺ "`";
          details =
              ("service", service_name)
              ∷ ("state", runtime_state_label state)
              ∷ ("action", action_label action)
              ∷ [];
        },
      )

  unfoldable pub live_service : String → Act (List Operation × InfoEvent)
  live_service service_name =
      lift (
        ok_or (service_by_name config service_name)
          ("service `" ⧺ service_name ⧺ "` not found in config"))
      >>= λ service.
          compute_runtime_state system json resolver probe service_name service >>= λ state.
          act_on service_name state (bring_up_action service_name service.manager state)

  -- The `for` loop.
  unfoldable pub plan_services : Bool → List String → Act BringUpPlan
  plan_services dry_run [] = return (record { plan = record { operations = [] }; events = [] })
  plan_services dry_run (name ∷ names) =
      let rest = plan_services dry_run names in
      (if dry_run then dry_service name else live_service name) >>= λ (operations, event).
      rest >>= λ more. return (record {
        plan = record { operations = operations ++ more.plan.operations };
        events = event ∷ more.events;
      })

  unfoldable pub build_bring_up_plan : List String → Bool → Act BringUpPlan
  build_bring_up_plan ordered_services dry_run = plan_services dry_run ordered_services

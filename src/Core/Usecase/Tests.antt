-- ===== src/Core/Usecase/Tests.antt =====
-- Runs of `plan` on the inputs of the tests in crates/infractl-core/src/usecase.rs, and the theorems
-- about it at an input.
use btc_infra_tools.Base.{◌≡◌, ◌↔◌, refl, none, some, [], ◌∷◌, String}
use btc_infra_tools.Base.Result.{ok, bail}
use btc_infra_tools.Base.Text.{trim}
use btc_infra_tools.Core.Env.{EnvResolver, fixed_resolver, expand_placeholders}
use btc_infra_tools.Core.Config.{ServiceConfig, BelterConfig, service_by_name}
use btc_infra_tools.Core.Plan.{
  Operation, Plan, restart_launchd_service, start_podman_compose_service,
}
use btc_infra_tools.Core.Usecase.{
  ServiceCommandRequest, ServiceAction, start, restart, launchd_operation, podman_compose_operation,
  manager_operation, service_operation, plan,
}
use btc_infra_tools.Core.Usecase.Planned.{Planned, plan-Planned}

abbrev blank : String → ServiceConfig
blank manager = record {
  manager = manager;
  unit = none;
  compose_file = none;
  compose_override = none;
  project = none;
  env_file = none;
  machine = none;
  depends_on = none;
}

abbrev config : BelterConfig
config = record {
  service = some (
      ("bitcoind", record (blank "launchd") { unit = some "system/${NODE}" })
      ∷ (
        "mempool",
        record (blank "podman_compose") { compose_file = some "base.yml"; project = some "docker" },
      )
      ∷ ("broken", blank "launchd")
      ∷ ("odd", blank "systemd")
      ∷ []);
}

abbrev resolver : EnvResolver
resolver = fixed_resolver (("NODE", "com.bitcoind.node") ∷ [])

abbrev request : String → ServiceAction → ServiceCommandRequest
request name action = record { config = config; service_name = name; action = action }

abbrev restart_node : Plan
restart_node = record { operations = restart_launchd_service "system/com.bitcoind.node" ∷ [] }

plans_restart : plan (request "bitcoind" restart) resolver ≡ ok restart_node
unfolding plan service_operation trim manager_operation launchd_operation expand_placeholders
    fixed_resolver
plans_restart = refl

plans_compose :
    plan (request "mempool" start) resolver
    ≡ ok (record { operations = start_podman_compose_service "base.yml" none (some "docker") ∷ [] })
unfolding plan service_operation trim manager_operation podman_compose_operation expand_placeholders
plans_compose = refl

rejects_missing_unit :
    plan (request "broken" restart) resolver ≡ bail "service `broken` is missing `unit`"
unfolding plan service_operation trim manager_operation launchd_operation
rejects_missing_unit = refl

rejects_manager :
    plan (request "odd" restart) resolver ≡ bail "service `odd` uses unsupported manager `systemd`"
unfolding plan service_operation trim manager_operation
rejects_manager = refl

rejects_unknown :
    plan (request "stratum" restart) resolver ≡ bail "service `stratum` not found in config"
unfolding plan
rejects_unknown = refl

plan-Planned_example : (plan (request "bitcoind" restart) resolver ≡ ok restart_node) ↔ (
    (service : ServiceConfig) × (op : Operation) × (service_by_name config "bitcoind"
      ≡ some service)
    × Planned (request "bitcoind" restart) service resolver op
    × (restart_node.operations ≡ op ∷ []))
plan-Planned_example = plan-Planned (request "bitcoind" restart) resolver restart_node

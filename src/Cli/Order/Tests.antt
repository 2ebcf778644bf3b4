-- ===== src/Cli/Order/Tests.antt =====
-- Runs of `resolve_bring_up_order`, and the theorems about it at an input.
use btc_infra_tools.Base.{◌≡◌, ◌≢◌, refl, none, some, List, [], ◌∷◌, ◌++◌, String, All}
use btc_infra_tools.Base.Result.{ok, err}
use btc_infra_tools.Core.Config.{ServiceConfig, BelterConfig, service_by_name}
use btc_infra_tools.Cli.Order.{
  cyclic_at, not_found, close, remove, visit_all, visit_dependency, resolve_bring_up_order,
}
use btc_infra_tools.Cli.Order.Graph.{Reaches, IsTopological}
use btc_infra_tools.Cli.Order.Topological.{resolve_bring_up_order-IsTopological}
use btc_infra_tools.Cli.Order.Failures.{Blames, resolve_bring_up_order-Blames}
use btc_infra_tools.Cli.Order.Enough.{resolve_bring_up_order-ne-none}

abbrev needs : String → List String → String × ServiceConfig
needs name others = (
  name,
  record {
    manager = "launchd";
    unit = none;
    compose_file = none;
    compose_override = none;
    project = none;
    env_file = none;
    machine = none;
    depends_on = some others;
  },
)

abbrev stack_config : BelterConfig
stack_config = record {
  service = some (
      needs "mempool" ("bitcoind" ∷ "podman" ∷ "stratum" ∷ [])
      ∷ needs "stratum" ("bitcoind" ∷ [])
      ∷ needs "bitcoind" []
      ∷ needs "podman" []
      ∷ needs "a" ("b" ∷ [])
      ∷ needs "b" ("c" ∷ [])
      ∷ needs "c" ("b" ∷ [])
      ∷ needs "d" ("nowhere" ∷ [])
      ∷ []);
}

abbrev mempool_order : List String
mempool_order = "bitcoind" ∷ "podman" ∷ "stratum" ∷ "mempool" ∷ []

orders_mempool : resolve_bring_up_order stack_config "mempool" ≡ some (ok mempool_order)
unfolding resolve_bring_up_order visit_dependency visit_all close remove service_by_name
orders_mempool = refl

finds_cycle : resolve_bring_up_order stack_config "a" ≡ some (err (cyclic_at "b"))
unfolding resolve_bring_up_order visit_dependency visit_all service_by_name
finds_cycle = refl

finds_missing : resolve_bring_up_order stack_config "d" ≡ some (err (not_found "nowhere"))
unfolding resolve_bring_up_order visit_dependency visit_all service_by_name
finds_missing = refl

resolve_bring_up_order-IsTopological_example :
    IsTopological stack_config mempool_order
    × All (Reaches stack_config "mempool") mempool_order
    × ((front : List String) × (mempool_order ≡ front ++ "mempool" ∷ []))
resolve_bring_up_order-IsTopological_example =
    resolve_bring_up_order-IsTopological stack_config "mempool" mempool_order orders_mempool

resolve_bring_up_order-Blames_example : Blames stack_config "a" (cyclic_at "b")
resolve_bring_up_order-Blames_example =
    resolve_bring_up_order-Blames stack_config "a" (cyclic_at "b") finds_cycle

resolve_bring_up_order-ne-none_example : resolve_bring_up_order stack_config "mempool" ≢ none
resolve_bring_up_order-ne-none_example = resolve_bring_up_order-ne-none stack_config "mempool"

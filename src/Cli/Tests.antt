-- ===== src/Cli/Tests.antt =====
-- The theorem about the plan of a bring-up, at a configuration of two services.
use btc_infra_tools.Base.{◌≡◌, none, some, List, [], ◌∷◌, String, true}
use btc_infra_tools.Base.Result.{ok}
use btc_infra_tools.Core.Env.{fixed_resolver}
use btc_infra_tools.Core.Config.{ServiceConfig, BelterConfig}
use btc_infra_tools.Adapters.World.{return}
use btc_infra_tools.Adapters.Samples.{willing, text_json}
use btc_infra_tools.Cli.Runtime.{ready}
use btc_infra_tools.Cli.BringUp.{BringUpPlan, build_bring_up_plan}
use btc_infra_tools.Cli.BringUp.Planned.{Starts, build_bring_up_plan-Starts}

abbrev blank : String → ServiceConfig
blank manager = record {
  manager = manager;
  unit = none;
  compose_file = none;
  compose_override = none;
  project = none;
  env_file = none;
  machine = none;
  depends_on = none;
}

abbrev mempool_config : BelterConfig
mempool_config = record {
  service = some (
      ("runtime", record (blank "podman_machine") { machine = some "podman-machine-default" })
      ∷ (
        "mempool",
        record (blank "podman_compose") {
          compose_file = some "mempool.yml";
          depends_on = some ("runtime" ∷ []);
        },
      )
      ∷ []);
}

abbrev names : List String
names = "runtime" ∷ "mempool" ∷ []

build_bring_up_plan-Starts_example :
    ((build_bring_up_plan willing text_json
        (fixed_resolver [])
        (return ready)
        mempool_config
        names
        true
        []).1
      ≡ [])
    × ((made : BringUpPlan)
        → (build_bring_up_plan willing text_json
            (fixed_resolver [])
            (return ready)
            mempool_config
            names
            true
            []).0
          ≡ ok made
        → Starts willing text_json
            (fixed_resolver [])
            (return ready)
            mempool_config
            names
            made.plan.operations)
build_bring_up_plan-Starts_example =
    build_bring_up_plan-Starts willing text_json (fixed_resolver []) (return ready) mempool_config
      names []

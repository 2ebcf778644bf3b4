-- ===== src/Cli/Order/Graph.antt =====
-- The dependency graph of a configuration, and orders of its services, stated without the search.
use btc_infra_tools.Base.{◌≡◌, some, List, [], ◌∷◌, String, true, false, All, contains}
use btc_infra_tools.Core.Config.{BelterConfig, ServiceConfig, service_by_name}
use btc_infra_tools.Cli.Order.{dependencies}

-- The service `name` is configured and lists `d` as a dependency.
pub data DependsOn (config : BelterConfig) (name d : String) : Type 0 where
  edge :
      (service : ServiceConfig)
      → service_by_name config name ≡ some service
      → contains (dependencies service) d ≡ true
      → DependsOn config name d

-- A chain of dependencies, the empty one included.
pub data Reaches (config : BelterConfig) : String → String → Type 0 where
  here : {a : String} → Reaches config a a
  there : {a b c : String} → DependsOn config a b → Reaches config b c → Reaches config a c

-- A chain that is not empty.
abbrev pub Precedes : BelterConfig → String → String → Type 0
Precedes config a c = (b : String) × DependsOn config a b × Reaches config b c

pub Reaches-trans :
    {config : BelterConfig} {a b c : String}
    → Reaches config a b
    → Reaches config b c
    → Reaches config a c
Reaches-trans here q = q
Reaches-trans (there e p) q = there e (Reaches-trans p q)

-- Along the list, every service is configured, is new, and stands behind all of its dependencies;
-- those of `before` are taken to stand in front of the list.
abbrev pub TopologicalFrom : BelterConfig → List String → List String → Type 0
TopologicalFrom config before [] = Unit
TopologicalFrom config before (x ∷ xs) =
    (contains before x ≡ false)
    × ((service : ServiceConfig) × (service_by_name config x ≡ some service)
        × All (λ d. contains before d ≡ true) (dependencies service))
    × TopologicalFrom config (x ∷ before) xs

abbrev pub IsTopological : BelterConfig → List String → Type 0
IsTopological config order = TopologicalFrom config [] order

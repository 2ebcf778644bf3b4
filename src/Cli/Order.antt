-- ===== src/Cli/Order.antt =====
-- The order in which a service and its dependencies are brought up: `resolve_bring_up_order` and
-- `visit_dependency` (crates/infractl-cli/src/commands/service.rs). A hash set is the list of its
-- elements. The recursion takes fuel, and `none` is the fuel running out.
pub mod Visit
pub mod Stack
pub mod Graph
pub mod Topological
pub mod Failures
pub mod Enough
mod Tests
use btc_infra_tools.Base.{
  ℕ, zero, suc, ◌+◌, Option, none, some, List, [], ◌∷◌, ◌++◌, String, true, false, ◌==◌, contains,
  length, unwrap_or, if◌then◌else◌,
}
use btc_infra_tools.Base.Text.{◌⧺◌}
use btc_infra_tools.Base.Result.{Error, ok, err, anyhow}
use btc_infra_tools.Base.Fuel.{Fueled, and_then}
use btc_infra_tools.Core.Config.{BelterConfig, ServiceConfig, service_by_name}

pub record VisitState : Type 0 where
  pub visited : List String
  pub stack : List String
  pub ordered : List String

-- `service.depends_on.as_deref().unwrap_or(&[])`
abbrev pub dependencies : ServiceConfig → List String
dependencies service = unwrap_or service.depends_on []

abbrev pub cyclic_at : String → Error
cyclic_at name = anyhow ("cyclic service dependency detected at `" ⧺ name ⧺ "`")

abbrev pub not_found : String → Error
not_found name = anyhow ("service `" ⧺ name ⧺ "` not found in config")

-- `HashSet::remove`
unfoldable pub remove : String → List String → List String
remove k [] = []
remove k (x ∷ xs) = let rest = remove k xs in if x == k then rest else x ∷ rest

-- The state once the dependencies of `name` are visited.
unfoldable pub close : String → VisitState → VisitState
close name st = record {
  visited = name ∷ st.visited;
  stack = remove name st.stack;
  ordered = st.ordered ++ name ∷ [];
}

abbrev open_visit : String → VisitState → VisitState
open_visit name st = record st { stack = name ∷ st.stack }

-- The `for` loop over the dependencies, with the recursive call as an argument.
unfoldable pub visit_all :
    (String → VisitState → Fueled VisitState) → List String → VisitState → Fueled VisitState
visit_all visit [] st = some (ok st)
visit_all visit (d ∷ ds) st = and_then (visit d st) (visit_all visit ds)

unfoldable pub visit_dependency : ℕ → BelterConfig → String → VisitState → Fueled VisitState
visit_dependency zero config name st = none
visit_dependency (suc fuel) config name st =
    if contains st.visited name
    then some (ok st)
    else if contains st.stack name
    then some (err (cyclic_at name))
    else elim (service_by_name config name) [
      | none ↦ some (err (not_found name))
      | some service ↦
          and_then
            (visit_all (visit_dependency fuel config) (dependencies service) (open_visit name st))
            (λ st'. some (ok (close name st')))
    ]

abbrev pub service_count : BelterConfig → ℕ
service_count config = elim config.service [ none ↦ 0 | some services ↦ length services ]

abbrev start_state : VisitState
start_state = record { visited = []; stack = []; ordered = [] }

-- One more round than there are services is enough, since every name on the stack is one.
unfoldable pub resolve_bring_up_order : BelterConfig → String → Fueled (List String)
resolve_bring_up_order config service_name =
    and_then (visit_dependency (service_count config + 1) config service_name start_state)
      (λ st. some (ok st.ordered))

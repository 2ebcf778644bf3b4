-- ===== src/Adapters/Executor.antt =====
-- The executors of plans (crates/infractl-adapters/src/executor.rs).
pub mod Reports
use btc_infra_tools.Base.{
  ℕ, suc, ◌+◌, Option, none, some, List, [], ◌∷◌, ◌++◌, String, Bool, true, false, if◌then◌else◌,
}
use btc_infra_tools.Base.Text.{◌⧺◌, show_ℕ}
use btc_infra_tools.Base.Result.{Result, ok, err}
use btc_infra_tools.Core.Plan.{
  Operation, ExecutionDetails, ExecutionReport, Plan, start_launchd_service, stop_launchd_service,
  restart_launchd_service, start_podman_compose_service, stop_podman_compose_service,
  restart_podman_compose_service, start_podman_machine, stop_podman_machine, restart_podman_machine,
}
use btc_infra_tools.Adapters.World.{System, Json, Act, ◌>>=◌, ◌>>◌, lift, return}
use btc_infra_tools.Adapters.Launchd
use btc_infra_tools.Adapters.Compose
use btc_infra_tools.Adapters.Machine

module _ (system : System) (json : Json) where
  -- The `match` on an operation, with the number of the operation, from 1.
  unfoldable pub execute_operation : ℕ → Operation → Act (List ExecutionReport)
  execute_operation index (start_launchd_service unit) = Launchd.start_unit system unit >> return []
  execute_operation index (stop_launchd_service unit) = Launchd.stop_unit system unit >> return []
  execute_operation index (restart_launchd_service unit) =
      Launchd.restart_unit system unit >>= λ details.
      return (record { operation_index = index; details = details } ∷ [])
  execute_operation index (start_podman_compose_service file over project) =
      Compose.start system json file over project >> return []
  execute_operation index (stop_podman_compose_service file over project) =
      Compose.stop system json file over project >> return []
  execute_operation index (restart_podman_compose_service file over project) =
      Compose.restart system json file over project >> return []
  execute_operation index (start_podman_machine machine) =
      Machine.start system json machine >> return []
  execute_operation index (stop_podman_machine machine) =
      Machine.stop system json machine >> return []
  execute_operation index (restart_podman_machine machine) =
      Machine.restart system json machine >> return []

  -- The `for` loop, at the operation with this number.
  unfoldable pub execute_from : ℕ → List Operation → Act (List ExecutionReport)
  execute_from index [] = return []
  execute_from index (op ∷ ops) =
      let rest = execute_from (index + 1) ops in
      execute_operation index op >>= λ made. rest >>= λ reports. return (made ++ reports)

  -- `RealExecutor::execute`
  unfoldable pub execute : Plan → Act (List ExecutionReport)
  execute plan = execute_from 1 plan.operations

module _ (debug_text : Option String → String) where
  -- The text of an operation after its number.
  unfoldable pub would_do : Operation → String
  would_do (start_launchd_service unit) = "start `launchd` unit `" ⧺ unit ⧺ "`"
  would_do (stop_launchd_service unit) = "stop `launchd` unit `" ⧺ unit ⧺ "`"
  would_do (restart_launchd_service unit) = "restart `launchd` unit `" ⧺ unit ⧺ "`"
  would_do (start_podman_compose_service file over project) =
      "start `podman_compose` project "
      ⧺ debug_text project
      ⧺ " with base `"
      ⧺ file
      ⧺ "` override "
      ⧺ debug_text over
  would_do (stop_podman_compose_service file over project) =
      "stop `podman_compose` project "
      ⧺ debug_text project
      ⧺ " with base `"
      ⧺ file
      ⧺ "` override "
      ⧺ debug_text over
  would_do (restart_podman_compose_service file over project) =
      "restart `podman_compose` project "
      ⧺ debug_text project
      ⧺ " with base `"
      ⧺ file
      ⧺ "` override "
      ⧺ debug_text over
  would_do (start_podman_machine machine) = "start `podman_machine` `" ⧺ machine ⧺ "`"
  would_do (stop_podman_machine machine) = "stop `podman_machine` `" ⧺ machine ⧺ "`"
  would_do (restart_podman_machine machine) = "restart `podman_machine` `" ⧺ machine ⧺ "`"

  unfoldable pub dry_run_line : ℕ → Operation → String
  dry_run_line index op = "  [DRY-RUN] " ⧺ show_ℕ index ⧺ ". Would " ⧺ would_do op

  -- `DryRunExecutor::execute` from the operation with this number on: the lines that it wrote, with
  -- `write` as the answer of the writer to a line.
  unfoldable pub dry_run_from :
      (String → Result (Unit {0}))
      → ℕ
      → List Operation
      → Result (List ExecutionReport) × List String
  dry_run_from write index [] = (ok [], [])
  dry_run_from write index (op ∷ ops) =
      let (result, lines) = dry_run_from write (index + 1) ops in
      elim (write (dry_run_line index op)) [
        | err e ↦ (err e, [])
        | ok done ↦ (result, dry_run_line index op ∷ lines)
      ]

  unfoldable pub dry_run :
      (String → Result (Unit {0})) → Plan → Result (List ExecutionReport) × List String
  dry_run write plan = dry_run_from write 1 plan.operations

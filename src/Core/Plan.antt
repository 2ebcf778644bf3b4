-- ===== src/Core/Plan.antt =====
-- Plans and execution reports (crates/infractl-core/src/plan.rs).
use btc_infra_tools.Base.{ℕ, Option, List, String}
use btc_infra_tools.Base.Int.{ℤ}

pub data Operation : Type 0 where
  start_launchd_service stop_launchd_service restart_launchd_service : (unit : String) → Operation
  start_podman_compose_service stop_podman_compose_service restart_podman_compose_service :
      (compose_file : String) (compose_override project : Option String) → Operation
  start_podman_machine stop_podman_machine restart_podman_machine : (machine : String) → Operation

pub data ExecutionDetails : Type 0 where
  launchd_restart_pid_change : (unit : String) (pid_before pid_after : Option ℤ) → ExecutionDetails

pub record ExecutionReport : Type 0 where
  pub operation_index : ℕ
  pub details : ExecutionDetails

pub record Plan : Type 0 where
  pub operations : List Operation

-- ===== src/Adapters/Machine.antt =====
-- The adapter of `podman machine` (crates/infractl-adapters/src/lib.rs).
pub mod Saw
pub mod Ready
pub mod Bounds
use btc_infra_tools.Base.{
  ℕ, zero, suc, ◌-◌, ◌+◌, Option, none, some, List, [], ◌∷◌, String, Bool, true, false, ◌&&◌, ltb,
  if◌then◌else◌,
}
use btc_infra_tools.Base.Int.{ℤ}
use btc_infra_tools.Base.Text.{◌⧺◌, trim, show_ℕ}
use btc_infra_tools.Base.Result.{Error, Result, ok, err, bail, ok_or}
use btc_infra_tools.Adapters.Inspection.{PodmanMachineInspection, parse_podman_machine_inspection}
use btc_infra_tools.Adapters.World.{
  Json, Output, System, Act, ◌>>=◌, ◌>>◌, lift, return, inspect, thread_sleep, command, debug_code,
}

abbrev pub podman_ready_checks : ℕ
podman_ready_checks = 15

abbrev pub podman_ready_poll_interval : ℕ
podman_ready_poll_interval = 2

abbrev pub podman_start_attempts : ℕ
podman_start_attempts = 2

pub data PodmanMachineStatus : Type 0 where
  running stopped : PodmanMachineStatus
  degraded : String → PodmanMachineStatus

abbrev pub podman_machine_connection : String → Bool → String
podman_machine_connection machine rootful = if rootful then machine ⧺ "-root" else machine

-- `ProcessPodmanCommandRunner::run`
unfoldable pub run_podman : System → List String → Act Output
run_podman system args = command system "podman" args >>= λ output.
    return (record output { stdout = trim output.stdout; stderr = trim output.stderr })

abbrev pub detail : Output → String
detail output =
    ", status="
    ⧺ debug_code output.code
    ⧺ ", stdout="
    ⧺ output.stdout
    ⧺ ", stderr="
    ⧺ output.stderr
    ⧺ ")"

module _ (system : System) (json : Json) where
  unfoldable pub run_machine_with : List String → String → String → Act (Unit {0})
  run_machine_with args machine action = run_podman system args >>= λ output.
      if output.success
      then return tt
      else lift (bail ("podman machine " ⧺ action ⧺ " failed (machine=" ⧺ machine ⧺ detail output))

  -- What is done with the output of `podman machine inspect` that has been parsed.
  unfoldable pub probe_api : String → PodmanMachineInspection → Act PodmanMachineStatus
  probe_api machine inspection =
      if inspection.running
      then (let connection = podman_machine_connection machine inspection.rootful in
          run_podman system ("--connection" ∷ connection ∷ "info" ∷ []) >>= λ api.
          if api.success
          then return running
          else return (
              degraded (
                "Podman machine is running but its API is unavailable (machine="
                ⧺ machine
                ⧺ ", connection="
                ⧺ connection
                ⧺ detail api)))
      else return stopped

  unfoldable pub status_with : String → Act PodmanMachineStatus
  status_with machine = run_podman system ("machine" ∷ "inspect" ∷ machine ∷ []) >>= λ output.
      if output.success
      then (lift (parse_podman_machine_inspection json output.stdout) >>= λ inspection.
          probe_api machine inspection)
      else lift (bail ("podman machine status failed (machine=" ⧺ machine ⧺ detail output))

  -- The sleep after a check with so many checks left.
  unfoldable pub pause : ℕ → Act (Unit {0})
  pause left = if ltb 0 left then thread_sleep podman_ready_poll_interval else return tt

  -- The rest of the loop after a check with so many checks left; `more` goes on with the next check.
  unfoldable pub handle_status :
      String
      → String
      → ℕ
      → ℕ
      → (ℕ → String → Act (Unit {0}))
      → Result PodmanMachineStatus
      → Act (Unit {0})
  handle_status machine action left start_attempts more (ok running) = return tt
  handle_status machine action left start_attempts more (ok stopped) =
      if ltb start_attempts podman_start_attempts && ltb 0 left
      then (run_machine_with ("machine" ∷ "start" ∷ machine ∷ []) machine action
          >> (pause left
              >> more (start_attempts + 1) (
                  "machine returned to stopped state; start attempt "
                  ⧺ show_ℕ (start_attempts + 1)
                  ⧺ " requested")))
      else pause left >> more start_attempts "machine is stopped"
  handle_status machine action left start_attempts more (ok (degraded text)) =
      pause left >> more start_attempts text
  handle_status machine action left start_attempts more (err e) =
      pause left >> more start_attempts e.message

  -- The `for` loop, with so many checks left; check 15 is the last one.
  unfoldable pub await_ready : ℕ → String → String → ℕ → String → Act (Unit {0})
  await_ready zero machine action start_attempts last_status = lift (
      bail (
        "podman machine "
        ⧺ action
        ⧺ " did not produce a ready API after "
        ⧺ show_ℕ podman_ready_checks
        ⧺ " checks (machine="
        ⧺ machine
        ⧺ ", start_attempts="
        ⧺ show_ℕ start_attempts
        ⧺ ", last_status="
        ⧺ last_status
        ⧺ ")"))
  await_ready (suc left) machine action start_attempts last_status =
      let more = await_ready left machine action in
      inspect (status_with machine) (handle_status machine action left start_attempts more)

  unfoldable pub start_with : String → String → Act (Unit {0})
  start_with machine action =
      run_machine_with ("machine" ∷ "start" ∷ machine ∷ []) machine action
      >> await_ready podman_ready_checks machine action 1 "Podman readiness was not checked"

  unfoldable pub start : String → Act (Unit {0})
  start machine = start_with machine "start"

  unfoldable pub stop : String → Act (Unit {0})
  stop machine = run_machine_with ("machine" ∷ "stop" ∷ machine ∷ []) machine "stop"

  unfoldable pub restart : String → Act (Unit {0})
  restart machine =
      run_machine_with ("machine" ∷ "stop" ∷ machine ∷ []) machine "restart"
      >> start_with machine "restart"

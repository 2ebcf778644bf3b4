-- ===== src/Watchdog/Process.antt =====
-- The watchdog's child processes and its sleep (crates/belter-watchdog/src/main.rs): the loops run
-- on fuel, one unit for each round. `wait_with_output` returns when the child has ended and its pipes
-- are closed, which may be never: the result is then `none`, as where the fuel runs out.
pub mod Waits
pub mod Clock
pub mod Ends
use btc_infra_tools.Base.{
  ℕ, zero, suc, ◌+◌, ◌*◌, ◌-◌, ◌^◌, min, none, some, List, String, Bool, true, false, is_empty, eqb,
  leb, ltb, if◌then◌else◌,
}
use btc_infra_tools.Base.Text.{◌⧺◌}
use btc_infra_tools.Base.Result.{anyhow}
use btc_infra_tools.Watchdog.Health.{CommandOutput}
use btc_infra_tools.Watchdog.World.{
  Purpose, Signal, sigterm, sigkill, polled, killed, collected, signalled, spawned, System, Act,
  ◌>>=◌, ◌>>◌, return, fail, out_of_fuel, in_context, perform, attempt, block_on, is_requested,
  instant_now, thread_sleep,
}

abbrev pub from_millis : ℕ → ℕ
from_millis n = n * 1000000

-- `libc::ESRCH`
abbrev esrch : ℕ
esrch = 3

module _ (system : System) where
  -- `child.wait_with_output()?` and the record made of it.
  unfoldable pub collect : Bool → ℕ → Act CommandOutput
  collect timed_out child = do
    output ← block_on (λ t. system.wait_with_output t child) (collected timed_out)
    return (record {
      code = output.code;
      stdout = output.stdout;
      stderr = output.stderr;
      timed_out = timed_out;
    })

  unfoldable pub try_wait : ℕ → Act Bool
  try_wait child = attempt (λ t. system.try_wait t child) polled

  -- `libc::killpg` and the check of its result.
  unfoldable pub send_signal : Signal → String → ℕ → Act (Unit {0})
  send_signal signal message child = do
    error ← perform (λ t. system.killpg t child signal) (signalled signal)
    elim error [
      | none ↦ return tt
      | some code ↦
          if eqb code esrch
          then return tt
          else in_context message (fail (anyhow (system.os_error code)))
    ]

  -- The `while` loop: whether the child was seen to end before the deadline.
  unfoldable pub await_exit : ℕ → ℕ → ℕ → Act Bool
  await_exit zero deadline child = out_of_fuel
  await_exit (suc fuel) deadline child =
      let rest = await_exit fuel deadline child in
      do
        now ← instant_now system
        if ltb now deadline
            then (do
              done ← try_wait child
              if done then return true else thread_sleep system (from_millis 25) >> rest)
            else return false

  unfoldable pub terminate_child : ℕ → ℕ → Act (Unit {0})
  terminate_child fuel child =
      if leb (2 ^ 31) child
      then in_context "child PID exceeds platform range"
          (fail (anyhow "out of range integral type conversion attempted"))
      else do
        send_signal sigterm "failed to terminate watchdog child process group" child
        now ← instant_now system
        done ← await_exit fuel (now + from_millis 1000) child
        if done
            then return tt
            else send_signal sigkill "failed to kill watchdog child process group" child

  -- The `loop` of `run_shell_command`.
  unfoldable pub poll_child : ℕ → ℕ → ℕ → Act CommandOutput
  poll_child zero deadline child = out_of_fuel
  poll_child (suc fuel) deadline child =
      let rest = poll_child fuel deadline child in
      do
        requested ← is_requested system
        if requested then terminate_child fuel child >> collect false child else do
          done ← try_wait child
          if done then collect false child else do
            now ← instant_now system
            if leb deadline now
                then perform (λ t. tt) (λ _. killed) >> collect true child
                else thread_sleep system (from_millis 100) >> rest

  unfoldable pub run_shell_command : ℕ → Purpose → List String → String → ℕ → Act CommandOutput
  run_shell_command fuel purpose shell command timeout =
      if is_empty shell then fail (anyhow "shell command prefix cannot be empty") else do
        child ←
            in_context ("failed to spawn command `" ⧺ command ⧺ "`")
              (attempt (λ t. system.spawn t shell command) (spawned purpose command))
        now ← instant_now system
        poll_child fuel (now + timeout) child

  -- The `while` loop of `sleep_until_shutdown`.
  unfoldable pub sleep_until : ℕ → ℕ → Act Bool
  sleep_until zero deadline = out_of_fuel
  sleep_until (suc fuel) deadline =
      let rest = sleep_until fuel deadline in
      do
        now ← instant_now system
        if ltb now deadline
            then (do
              requested ← is_requested system
              if requested then return true else do
                again ← instant_now system
                thread_sleep system (min (deadline - again) (from_millis 100))
                rest)
            else is_requested system

  unfoldable pub sleep_until_shutdown : ℕ → ℕ → Act Bool
  sleep_until_shutdown fuel duration = do
    now ← instant_now system
    sleep_until fuel (now + duration)

-- ===== src/Watchdog/Cycle.antt =====
-- One cycle of a watch: `run_watch_cycle` and the functions that it calls, a function for each of
-- its stages (crates/belter-watchdog/src/main.rs). The loops run on the section's fuel.
pub mod Phase
pub mod Triple
pub mod Commands
pub mod Stages
pub mod Legal
pub mod Ends
use btc_infra_tools.Base.{
  ℕ, zero, suc, ◌+◌, ◌-◌, ◌/◌, ◌%◌, ◌^◌, min, max, Option, none, some, String, Bool, true, false,
  not, ◌&&◌, ◌||◌, is_some, eqb, ltb, if◌then◌else◌,
}
use btc_infra_tools.Base.Int.{pos}
use btc_infra_tools.Base.Text.{◌⧺◌, show_ℕ, trim}
use btc_infra_tools.Base.Result.{anyhow}
use btc_infra_tools.Watchdog.Config.{WatchConfig, EffectiveWatch}
use btc_infra_tools.Watchdog.Json.{Json}
use btc_infra_tools.Watchdog.Health.{
  CommandOutput, HealthState, healthy, syncing, unhealthy, has_code, evaluate_health,
}
use btc_infra_tools.Watchdog.Log.{
  health_label, show_bool, display_code, sanitize_log_detail, format_log_line,
}
use btc_infra_tools.Watchdog.World.{
  admission, diagnosis, repair, System, Act, ◌>>=◌, ◌>>◌, return, fail, out_of_fuel, in_context,
  perform, attempt, is_requested, instant_now, stamped, wrote,
}
use btc_infra_tools.Watchdog.Process.{run_shell_command, sleep_until_shutdown}

abbrev pub is_healthy : HealthState → Bool
is_healthy healthy = true
is_healthy _ = false

abbrev pub is_syncing : HealthState → Bool
is_syncing syncing = true
is_syncing _ = false

abbrev pub is_unhealthy : HealthState → Bool
is_unhealthy unhealthy = true
is_unhealthy _ = false

-- `as_secs`
abbrev pub as_secs : ℕ → ℕ
as_secs duration = duration / 1000000000

abbrev pub is_recovery_failure : CommandOutput → Bool
is_recovery_failure output = output.timed_out || not (has_code output.code (pos 0))

unfoldable pub exit_detail : CommandOutput → String
exit_detail output =
    "exit_code=" ⧺ display_code output.code ⧺ " timed_out=" ⧺ show_bool output.timed_out

module _ (system : System) (json : Json) (fuel : ℕ) where
  unfoldable pub log_line : String → String → String → Act (Unit {0})
  log_line watch event detail = do
    stamp ← perform system.now_utc_rfc3339 stamped
    let line = format_log_line stamp watch event detail
    attempt (λ t. system.write_line t false line) (wrote false line)

  module _ (watch : EffectiveWatch) where
    abbrev pub log : String → String → Act (Unit {0})
    log = log_line watch.config.name

    unfoldable pub recovery_allowed : Act Bool
    recovery_allowed = elim watch.config.allow_command [
      | none ↦ is_requested system >>= λ requested. return (not requested)
      | some command ↦ do
        output ← run_shell_command system fuel admission watch.shell command watch.timeout
        requested ← is_requested system
        if requested
            then return false
            else if has_code output.code (pos 0) && not output.timed_out
            then return true
            else do
              log
                  (if has_code output.code (pos 75) && not output.timed_out
                    then "watch.paused"
                    else "watch.blocked")
                  ("reason=admission " ⧺ exit_detail output)
              return false
    ]

    unfoldable pub run_diagnose : Act (Option HealthState)
    run_diagnose = do
      output ←
          in_context ("failed to run diagnose for `" ⧺ watch.config.name ⧺ "`") (
            run_shell_command system fuel diagnosis watch.shell watch.config.diagnose watch.timeout)
      requested ← is_requested system
      if requested then return none else return (some (evaluate_health json watch.config output))

    unfoldable pub finish_recovery : ℕ → Act ℕ
    finish_recovery checks = do
      log "recovery.outcome" ("outcome=recovered state=healthy checks=" ⧺ show_ℕ checks)
      if eqb watch.cooldown 0
          then return tt
          else log "cooldown" ("seconds=" ⧺ show_ℕ (as_secs watch.cooldown))
      return (max watch.interval watch.cooldown)

    unfoldable pub finish_stabilizing : ℕ → Act ℕ
    finish_stabilizing checks = do
      log "recovery.outcome" ("outcome=stabilizing state=syncing checks=" ⧺ show_ℕ checks)
      return (max watch.interval watch.cooldown)

    unfoldable pub log_recovery_command_failure : CommandOutput → Act (Unit {0})
    log_recovery_command_failure recovery =
        log "recovery.command_failure"
          (exit_detail recovery ⧺ " stderr=" ⧺ sanitize_log_detail (trim recovery.stderr))

    -- `if !recovery_allowed(..)? { return Ok(watch.interval); }` and what comes after it.
    abbrev pub when_allowed : Act ℕ → Act ℕ
    when_allowed rest = do
      allowed ← recovery_allowed
      if allowed then rest else return watch.interval

    -- `let Some(state) = run_diagnose(..)? else { return Ok(Duration::ZERO); }` and what comes after it.
    abbrev pub with_diagnosis : (HealthState → Act ℕ) → Act ℕ
    with_diagnosis rest = do
      state ← run_diagnose
      elim state [ none ↦ return 0 | some health ↦ rest health ]

    -- The code after the `while` loop; a panic is the error with its message.
    unfoldable pub give_up : CommandOutput → HealthState → ℕ → Act ℕ
    give_up recovery final_state checks = do
      log "recovery.outcome"
          ("outcome=unrecovered state=" ⧺ health_label final_state ⧺ " checks=" ⧺ show_ℕ checks)
      if is_healthy final_state
          then fail (anyhow "healthy stabilization state returns through finish_recovery")
          else if is_recovery_failure recovery
          then fail (
              anyhow (
                "recovery for `"
                ⧺ watch.config.name
                ⧺ "` failed and post-check is still unhealthy: "
                ⧺ exit_detail recovery
                ⧺ " stderr="
                ⧺ trim recovery.stderr))
          else fail (anyhow ("watch `" ⧺ watch.config.name ⧺ "` is still unhealthy after recovery"))

    -- The `while` loop over `stabilization_started.elapsed()`.
    unfoldable pub stabilize : ℕ → CommandOutput → ℕ → HealthState → ℕ → Act ℕ
    stabilize zero recovery started final_state checks = out_of_fuel
    stabilize (suc rounds) recovery started final_state checks =
        let again =
          λ (next : HealthState). stabilize rounds recovery started next ((checks + 1) % 2 ^ 32) in
        do
          now ← instant_now system
          if not (ltb (now - started) watch.recovery_stabilization)
              then give_up recovery final_state checks
              else do
                then_now ← instant_now system
                let remaining = watch.recovery_stabilization - (then_now - started)
                stopped ← sleep_until_shutdown system fuel (min watch.recovery_poll remaining)
                if stopped
                    then return 0
                    else when_allowed (
                        with_diagnosis λ next_state. do
                          log "recovery.stabilization_check" (
                              "attempt="
                              ⧺ show_ℕ ((checks + 1) % 2 ^ 32)
                              ⧺ " "
                              ⧺ health_label next_state)
                          if is_healthy next_state
                              then finish_recovery ((checks + 1) % 2 ^ 32)
                              else if is_syncing next_state
                              then finish_stabilizing ((checks + 1) % 2 ^ 32)
                              else again next_state)

    -- From the check after the recovery command on.
    unfoldable pub check_recovery : CommandOutput → Act ℕ
    check_recovery recovery = when_allowed (
        with_diagnosis λ post. do
          log "recovery.post_check" (health_label post)
          if is_healthy post
              then finish_recovery 0
              else if is_syncing post
              then finish_stabilizing 0
              else do
                log "recovery.stabilizing" (
                    "seconds="
                    ⧺ show_ℕ (as_secs watch.recovery_stabilization)
                    ⧺ " poll_seconds="
                    ⧺ show_ℕ (as_secs watch.recovery_poll))
                started ← instant_now system
                stabilize fuel recovery started post 0)

    -- From the admission before the recovery command on.
    unfoldable pub recover : Act ℕ
    recover = when_allowed (do
      log "recovery.start" ""
      recovery ←
          in_context ("failed to run recovery for `" ⧺ watch.config.name ⧺ "`")
            (run_shell_command system fuel repair watch.shell watch.config.recovery watch.timeout)
      requested ← is_requested system
      if requested then return 0 else do
        log "recovery.done" (exit_detail recovery)
        if is_some watch.config.allow_command
              && (has_code recovery.code (pos 75) && not recovery.timed_out)
            then log "watch.paused" "reason=recovery_deferred" >> return watch.interval
            else do
              if is_recovery_failure recovery
                  then log_recovery_command_failure recovery
                  else return tt
              check_recovery recovery)

    -- From the test of `confirm_after` on.
    unfoldable pub confirm : Act ℕ
    confirm = if eqb watch.confirm_after 0 then recover else do
      log "check.confirm_wait" ("seconds=" ⧺ show_ℕ (as_secs watch.confirm_after))
      stopped ← sleep_until_shutdown system fuel watch.confirm_after
      if stopped
          then return 0
          else when_allowed (
              with_diagnosis λ confirmed. do
                log "check.confirm_result" (health_label confirmed)
                if is_unhealthy confirmed then recover else return watch.interval)

    unfoldable pub run_watch_cycle : Act ℕ
    run_watch_cycle = when_allowed (do
      log "check.start" ""
      with_diagnosis λ initial. do
        log "check.result" (health_label initial)
        if is_unhealthy initial then confirm else return watch.interval)

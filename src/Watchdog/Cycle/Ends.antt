-- ===== src/Watchdog/Cycle/Ends.antt =====
-- A cycle of a watch ends where the clock goes on (crates/belter-watchdog/src/main.rs).
use btc_infra_tools.Base.{
  ℕ, zero, suc, ◌+◌, ◌-◌, ◌≤◌, ◌≡◌, ◌≢◌, refl, min, none, some, String, true, false, not, ◌&&◌,
  arith, is_some, eqb, ltb,
}
use btc_infra_tools.Base.Int.{pos}
use btc_infra_tools.Base.Fuel.{Fueled}
use btc_infra_tools.Watchdog.Config.{EffectiveWatch}
use btc_infra_tools.Watchdog.Json.{Json}
use btc_infra_tools.Watchdog.Health.{CommandOutput, HealthState, has_code}
use btc_infra_tools.Watchdog.World.{
  admission, diagnosis, repair, Trace, System, Act, stamped, wrote,
}
use btc_infra_tools.Watchdog.Rules.{
  Reaches, leads-if, leads-option, leads-from, leads-to, leads-assume, leads-bind,
}
use btc_infra_tools.Watchdog.Process.{from_millis}
use btc_infra_tools.Watchdog.Process.Clock.{
  reading, Ticks, Returns, Past, Ends, ends-return, ends-fail, ends-in_context, ends-perform,
  ends-attempt, is_requested-Ends, instant_now-Ends,
}
use btc_infra_tools.Watchdog.Process.Ends.{steps, sleep_until_shutdown-Ends, run_shell_command-Ends}
use btc_infra_tools.Watchdog.Cycle.{
  is_healthy, is_syncing, is_unhealthy, is_recovery_failure, log_line, recovery_allowed,
  run_diagnose, finish_recovery, finish_stabilizing, log_recovery_command_failure, when_allowed,
  with_diagnosis, give_up, stabilize, check_recovery, recover, confirm, run_watch_cycle,
}

-- So much fuel is enough for the watch: for its timeout and its waits, in rounds of 100 ms, and for its
-- stabilization, in rounds of the wait between two checks, which is not zero.
pub record Enough (watch : EffectiveWatch) (rounds fuel : ℕ) : Type 0 where
  pub for_commands : watch.timeout ≤ steps rounds (from_millis 100)
  pub for_confirmation : watch.confirm_after ≤ steps rounds (from_millis 100)
  pub for_polls : watch.recovery_poll ≤ steps rounds (from_millis 100)
  pub for_stabilization : watch.recovery_stabilization ≤ steps rounds watch.recovery_poll
  pub for_all : rounds + 42 ≤ fuel

module _ (system : System) (ticks : Ticks system) (returns : Returns system) (json : Json)
    (fuel : ℕ) (watch : EffectiveWatch) (rounds : ℕ) (enough : Enough watch rounds fuel) where
  -- The clock does not go back.
  abbrev Fine : {A : Type 0} → ℕ → Act A → Type 0
  Fine b act = Ends (Past b) act (λ a. Past b)

  log-Fine :
      (b : ℕ) (name event detail : String) → Fine b (log_line system json fuel name event detail)
  unfolding log_line reading
  log-Fine b name event detail =
      leads-bind (ends-perform b system.now_utc_rfc3339 stamped (λ a t. refl))
        (λ stamp. ends-attempt b _ (wrote false _) (λ r t. refl))

  recovery_allowed-Fine : (b : ℕ) → Fine b (recovery_allowed system json fuel watch)
  unfolding recovery_allowed
  recovery_allowed-Fine b =
      leads-option watch.config.allow_command
        (λ _. leads-bind (is_requested-Ends b system) (λ requested. ends-return _ (λ t h. h)))
        (λ command _.
          leads-bind
            (run_shell_command-Ends system ticks returns fuel admission watch.shell command
              watch.timeout rounds b enough.for_commands enough.for_all)
            (λ output. leads-bind (is_requested-Ends b system) (λ requested.
              leads-if requested (λ _. ends-return false (λ t h. h))
                (λ _.
                  leads-if (has_code output.code (pos 0) && not output.timed_out)
                    (λ _. ends-return true (λ t h. h))
                    (λ _. leads-bind (log-Fine b _ _ _) (λ done. ends-return false (λ t h. h)))))))

  run_diagnose-Fine : (b : ℕ) → Fine b (run_diagnose system json fuel watch)
  unfolding run_diagnose
  run_diagnose-Fine b =
      leads-bind
        (ends-in_context _ (
          run_shell_command-Ends system ticks returns fuel diagnosis watch.shell
            watch.config.diagnose watch.timeout rounds b enough.for_commands enough.for_all))
        (λ output. leads-bind (is_requested-Ends b system) (λ requested.
          leads-if requested (λ _. ends-return none (λ t h. h))
            (λ _. ends-return (some _) (λ t h. h))))

  module _ (b : ℕ) where
    when_allowed-Fine :
        {rest : Act ℕ} → Fine b rest → Fine b (when_allowed system json fuel watch rest)
    when_allowed-Fine f =
        leads-bind (recovery_allowed-Fine b)
          (λ allowed. leads-if allowed (λ _. f) (λ _. ends-return _ (λ t h. h)))

    with_diagnosis-Fine :
        {rest : HealthState → Act ℕ}
        → ((health : HealthState) → Fine b (rest health))
        → Fine b (with_diagnosis system json fuel watch rest)
    with_diagnosis-Fine f =
        leads-bind (run_diagnose-Fine b)
          (λ state. leads-option state (λ _. ends-return _ (λ t h. h)) (λ health _. f health))

    finish_recovery-Fine : (checks : ℕ) → Fine b (finish_recovery system json fuel watch checks)
    unfolding finish_recovery
    finish_recovery-Fine checks = leads-bind (log-Fine b _ _ _) (λ done.
        leads-bind {Q = λ a. Past b}
          (leads-if (eqb watch.cooldown 0) (λ _. ends-return tt (λ t h. h)) (λ _. log-Fine b _ _ _))
          (λ again. ends-return _ (λ t h. h)))

    finish_stabilizing-Fine :
        (checks : ℕ) → Fine b (finish_stabilizing system json fuel watch checks)
    unfolding finish_stabilizing
    finish_stabilizing-Fine checks =
        leads-bind (log-Fine b _ _ _) (λ done. ends-return _ (λ t h. h))

    give_up-Fine :
        (recovery : CommandOutput) (final_state : HealthState) (checks : ℕ)
        → Fine b (give_up system json fuel watch recovery final_state checks)
    unfolding give_up
    give_up-Fine recovery final_state checks = leads-bind (log-Fine b _ _ _) (λ done.
        leads-if (is_healthy final_state) (λ _. ends-fail _)
          (λ _. leads-if (is_recovery_failure recovery) (λ _. ends-fail _) (λ _. ends-fail _)))

    failure-Fine :
        (recovery : CommandOutput)
        → Fine b (log_recovery_command_failure system json fuel watch recovery)
    unfolding log_recovery_command_failure
    failure-Fine recovery = log-Fine b _ _ _

  -- The rounds that are left are enough for the rest of the stabilization, after another wait.
  further :
      (left started b now then_now : ℕ)
      → started + watch.recovery_stabilization ≤ b + steps left watch.recovery_poll
      → started ≤ b
      → b ≤ now
      → now ≤ then_now
      → not (ltb (now - started) watch.recovery_stabilization) ≡ false
      → let wait = min watch.recovery_poll (watch.recovery_stabilization - (then_now - started)) in
        (j : ℕ) × (left ≡ suc j)
        × (started + watch.recovery_stabilization ≤ (then_now + wait) + steps j watch.recovery_poll)
  unfolding steps
  further zero started b now then_now near begun passed later early =
      absurd (ground (arith, near, begun, passed, early))
  further (suc j) started b now then_now near begun passed later early =
      (j, refl, omega (arith, near, begun, passed, later))

  stabilize-Fine :
      (r : ℕ) (recovery : CommandOutput) (started : ℕ) (final_state : HealthState)
      (checks b left : ℕ)
      → started + watch.recovery_stabilization ≤ b + steps left watch.recovery_poll
      → started ≤ b
      → left + 1 ≤ r
      → Fine b (stabilize system json fuel watch r recovery started final_state checks)
  unfolding stabilize
  stabilize-Fine zero recovery started final_state checks b left near begun some_left =
      absurd (omega (arith, some_left))
  stabilize-Fine (suc r) recovery started final_state checks b left near begun some_left =
      leads-bind (instant_now-Ends b system ticks) (λ now. leads-assume (λ passed.
        leads-if (not (ltb (now - started) watch.recovery_stabilization))
          (λ late.
            leads-to (λ a t h. omega (arith, h, passed))
              (give_up-Fine now recovery final_state checks))
          (λ early. leads-bind (instant_now-Ends now system ticks) (λ then_now.
            leads-assume (λ later.
              let (j, is_suc, nearer) =
                further left started b now then_now near begun passed later early in
              let wait =
                min watch.recovery_poll (watch.recovery_stabilization - (then_now - started)) in
              leads-bind
                (sleep_until_shutdown-Ends system ticks returns fuel wait rounds then_now
                  (omega (arith, enough.for_polls)) (omega (arith, enough.for_all)))
                (λ stopped.
                  leads-if stopped (λ _. ends-return 0 (λ t h. omega (arith, h.0, passed, later)))
                    (λ awake.
                      leads-from (λ t h. h.1 awake)
                        (leads-to (λ a t h. omega (arith, h, passed, later))
                          (when_allowed-Fine (then_now + wait) (
                            with_diagnosis-Fine (then_now + wait) (λ next_state.
                              leads-bind (log-Fine (then_now + wait) _ _ _) (λ done.
                                leads-if (is_healthy next_state)
                                  (λ _. finish_recovery-Fine (then_now + wait) _)
                                  (λ _.
                                    leads-if (is_syncing next_state)
                                      (λ _. finish_stabilizing-Fine (then_now + wait) _)
                                      (λ _.
                                        stabilize-Fine r recovery started next_state _
                                          (then_now + wait) j nearer
                                          (omega (arith, begun, passed, later))
                                          (omega (arith, some_left, is_suc))))))))))))))))

  module _ (b : ℕ) where
    check_recovery-Fine :
        (recovery : CommandOutput) → Fine b (check_recovery system json fuel watch recovery)
    unfolding check_recovery
    check_recovery-Fine recovery = when_allowed-Fine b (
        with_diagnosis-Fine b (λ post. leads-bind (log-Fine b _ _ _) (λ done.
          leads-if (is_healthy post) (λ _. finish_recovery-Fine b _)
            (λ _.
              leads-if (is_syncing post) (λ _. finish_stabilizing-Fine b _)
                (λ _. leads-bind (log-Fine b _ _ _) (λ again.
                  leads-bind (instant_now-Ends b system ticks) (λ started. leads-assume (λ passed.
                    leads-to (λ a t h. omega (arith, h, passed))
                      (stabilize-Fine fuel recovery started post _ started rounds
                        (omega (arith, enough.for_stabilization)) (omega arith)
                        (omega (arith, enough.for_all)))))))))))

    recover-Fine : Fine b (recover system json fuel watch)
    unfolding recover
    recover-Fine = when_allowed-Fine b (
        leads-bind (log-Fine b _ _ _) (λ done.
          leads-bind
            (ends-in_context _ (
              run_shell_command-Ends system ticks returns fuel repair watch.shell
                watch.config.recovery watch.timeout rounds b enough.for_commands enough.for_all))
            (λ recovery. leads-bind (is_requested-Ends b system) (λ requested.
              leads-if requested (λ _. ends-return 0 (λ t h. h))
                (λ _. leads-bind (log-Fine b _ _ _) (λ logged.
                  leads-if
                    (is_some watch.config.allow_command
                      && (has_code recovery.code (pos 75) && not recovery.timed_out))
                    (λ _. leads-bind (log-Fine b _ _ _) (λ paused. ends-return _ (λ t h. h)))
                    (λ _.
                      leads-bind {Q = λ a. Past b}
                        (leads-if (is_recovery_failure recovery) (λ _. failure-Fine b recovery)
                          (λ _. ends-return tt (λ t h. h)))
                        (λ told. check_recovery-Fine recovery))))))))

    confirm-Fine : Fine b (confirm system json fuel watch)
    unfolding confirm
    confirm-Fine =
        leads-if (eqb watch.confirm_after 0) (λ _. recover-Fine)
          (λ _. leads-bind (log-Fine b _ _ _) (λ done.
            leads-bind
              (sleep_until_shutdown-Ends system ticks returns fuel watch.confirm_after rounds b
                enough.for_confirmation (omega (arith, enough.for_all)))
              (λ stopped.
                leads-from (λ t h. h.0)
                  (leads-if stopped (λ _. ends-return 0 (λ t h. h))
                    (λ _. when_allowed-Fine b (
                      with_diagnosis-Fine b (λ confirmed. leads-bind (log-Fine b _ _ _) (λ logged.
                        leads-if (is_unhealthy confirmed) (λ _. recover-Fine)
                          (λ _. ends-return _ (λ t h. h))))))))))

    run_watch_cycle-Fine : Fine b (run_watch_cycle system json fuel watch)
    unfolding run_watch_cycle
    run_watch_cycle-Fine = when_allowed-Fine b (
        leads-bind (log-Fine b _ _ _) (λ done. with_diagnosis-Fine b (λ initial_state.
          leads-bind (log-Fine b _ _ _) (λ logged.
            leads-if (is_unhealthy initial_state) (λ _. confirm-Fine)
              (λ _. ends-return _ (λ t h. h))))))

there_is :
    {A : Type 0} (Q : A → Trace → Type 0) (outcome : Fueled A × Trace)
    → Reaches (λ t. ⊥) (λ e t. Unit {0}) Q outcome
    → outcome.0 ≢ none
there_is Q (none, t) h = absurd h
there_is Q (some r, t) h = λ q. cc

-- Where the clock goes on by at least what is slept, and each child that ended or was killed lets go of
-- its pipes, so that `wait_with_output` returns, a cycle of a watch ends, with a delay or an error, on
-- every fuel that is enough for the timeout and the waits of the watch, whatever else the commands, the
-- signals and the log do.
pub run_watch_cycle-ne-none :
    (system : System) (json : Json) (watch : EffectiveWatch) (rounds fuel : ℕ) (t : Trace)
    → Ticks system
    → Returns system
    → Enough watch rounds fuel
    → (run_watch_cycle system json fuel watch t).0 ≢ none
run_watch_cycle-ne-none system json watch rounds fuel t ticks returns enough =
    there_is (λ a. Past (reading t)) (run_watch_cycle system json fuel watch t)
      ((run_watch_cycle-Fine system ticks returns json fuel watch rounds enough (reading t)).run t
        (omega arith))

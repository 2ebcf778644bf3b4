-- ===== src/Watchdog/Cycle/Stages.antt =====
-- What each stage of a cycle of a watch does to the observer, and the delay that it tells
-- (crates/belter-watchdog/src/main.rs).
use btc_infra_tools.Base.{
  ℕ, zero, suc, ◌-◌, ◌≡◌, refl, subst, ◌∙◌, max, Bool, Option, none, some, String, true, false, not,
  ◌&&◌, ◌||◌, eq_refl, arith, is_some, eqb, ltb, leb, if◌then◌else◌,
}
use btc_infra_tools.Base.Int.{pos}
use btc_infra_tools.Watchdog.Config.{EffectiveWatch}
use btc_infra_tools.Watchdog.Json.{Json}
use btc_infra_tools.Watchdog.Health.{CommandOutput, HealthState, has_code}
use btc_infra_tools.Watchdog.World.{
  admission, diagnosis, repair, System, Act, return, stamped, wrote,
}
use btc_infra_tools.Watchdog.Cycle.{
  is_healthy, is_syncing, is_unhealthy, is_recovery_failure, log_line, recovery_allowed,
  run_diagnose, finish_recovery, finish_stabilizing, log_recovery_command_failure, when_allowed,
  with_diagnosis, give_up, stabilize, check_recovery, recover, confirm, run_watch_cycle,
}
use btc_infra_tools.Watchdog.Cycle.Phase.{
  Phase, next_count, ended_well, permitted, needed, accepts, command_of, advance,
}
use btc_infra_tools.Watchdog.Cycle.Triple.{
  Triple, triple-return, triple-fail, triple-out_of_fuel, triple-in_context, triple-perform,
  triple-attempt, triple-if, triple-option, triple-from, triple-bind,
}
use btc_infra_tools.Watchdog.Cycle.Commands.{
  At, is_requested-triple, instant_now-triple, run_shell_command-triple,
  sleep_until_shutdown-triple,
}

module _ (system : System) (json : Json) (fuel : ℕ) (watch : EffectiveWatch) where
  abbrev count : HealthState → ℕ → ℕ
  count health n = if is_unhealthy health then suc n else 0

  -- A delay of less than the interval is told only where the shutdown token was seen set.
  abbrev pub Paced : ℕ → Phase → Type 0
  Paced delay p = (p.stopped || leb watch.interval delay) ≡ true

  abbrev Diagnosed : ℕ → ℕ → Option HealthState → Phase → Type 0
  Diagnosed checks repairs none p = p.stopped ≡ true
  Diagnosed checks repairs (some health) p = At (count health checks) repairs p

  log-triple :
      {P : Phase → Type 0} (name event detail : String)
      → Triple json watch P (log_line system json fuel name event detail) (λ _. P)
  unfolding log_line advance
  log-triple name event detail =
      triple-bind (triple-perform system.now_utc_rfc3339 stamped (λ t p s l h. (l, h))) (λ stamp.
        triple-attempt (λ t. system.write_line t false _) (wrote false _)
          (λ t p s l h. (l, λ _ _. h)))

  module _ (checks repairs : ℕ) where
    abbrev Granted : Phase → Type 0
    Granted p = At checks repairs p × (permitted json watch p ≡ true)

    recovery_allowed-triple :
        Triple json watch
          (At checks repairs)
          (recovery_allowed system json fuel watch)
          (λ b p. At checks repairs p × (b ≡ true → permitted json watch p ≡ true))
    unfolding recovery_allowed permitted accepts command_of
    recovery_allowed-triple =
        triple-option watch.config.allow_command
          (λ e.
            triple-bind (is_requested-triple system json watch (λ p b h. h))
              (λ requested. triple-return _ (λ p h. (h.0, λ q. ground arith))))
          (λ command e.
            triple-bind
              (triple-from (λ p h. (h, refl))
                (run_shell_command-triple system json watch admission checks repairs fuel
                  watch.shell command watch.timeout (rw e (eq_refl command))))
              (λ output.
                triple-bind (is_requested-triple system json watch (λ p b h. h)) (λ requested.
                  triple-if requested (λ _. triple-return false (λ p h. (h.0.0, λ q. cc)))
                    (λ r.
                      triple-if (ended_well json watch output)
                        (λ w. triple-return true (λ p h. (h.0.0, λ q. ground arith)))
                        (λ _.
                          triple-bind (log-triple _ _ _)
                            (λ _. triple-return false (λ p h. (h.0.0, λ q. cc))))))))

    run_diagnose-triple :
        Triple json watch Granted (run_diagnose system json fuel watch) (Diagnosed checks repairs)
    unfolding run_diagnose accepts command_of next_count
    run_diagnose-triple =
        triple-bind
          (triple-in_context _ (
            run_shell_command-triple system json watch diagnosis checks repairs fuel watch.shell
              watch.config.diagnose watch.timeout (eq_refl _)))
          (λ output. triple-bind (is_requested-triple system json watch (λ p b h. h)) (λ requested.
            triple-if requested (λ r. triple-return none (λ p h. h.1 ∙ r))
              (λ _. triple-return (some _) (λ p h. h.0))))

    when_allowed-triple :
        {rest : Act ℕ}
        → Triple json watch Granted rest Paced
        → Triple json watch (At checks repairs) (when_allowed system json fuel watch rest) Paced
    when_allowed-triple f = triple-bind recovery_allowed-triple (λ allowed.
        triple-if allowed (λ e. triple-from (λ p h. (h.0, h.1 e)) f)
          (λ _. triple-return _ (λ p h. ground arith)))

    with_diagnosis-triple :
        {rest : HealthState → Act ℕ}
        → ((health : HealthState)
            → Triple json watch (At (count health checks) repairs) (rest health) Paced)
        → Triple json watch Granted (with_diagnosis system json fuel watch rest) Paced
    with_diagnosis-triple f = triple-bind run_diagnose-triple (λ state.
        triple-option state
          (λ e. triple-return _ (λ p h.
            let q : p.stopped ≡ true = subst (λ o. Diagnosed checks repairs o p) e h in
            ground (arith, q)))
          (λ health e.
            triple-from (λ p h. subst (λ o. Diagnosed checks repairs o p) e h) (f health)))

  return-Paced :
      {P : Phase → Type 0} (delay : ℕ)
      → leb watch.interval delay ≡ true
      → Triple json watch P (return delay) Paced
  return-Paced delay e = triple-return delay (λ p h. ground (arith, e))

  interval-le : leb watch.interval watch.interval ≡ true
  interval-le = ground arith

  pause-le : leb watch.interval (max watch.interval watch.cooldown) ≡ true
  pause-le = ground arith

  -- After a wait that a shutdown ended.
  return-stopped :
      {P : Phase → Type 0} (b : Bool)
      → b ≡ true
      → Triple json watch (λ p. P p × (b ≡ true → p.stopped ≡ true)) (return 0) Paced
  return-stopped b e =
      triple-return 0 (λ p h. let q : p.stopped ≡ true = h.1 e in ground (arith, q))

  finish_recovery-triple :
      {P : Phase → Type 0} (checks : ℕ)
      → Triple json watch P (finish_recovery system json fuel watch checks) Paced
  unfolding finish_recovery
  finish_recovery-triple {P} checks = triple-bind (log-triple _ _ _) (λ _.
      triple-bind {Q = λ _. P}
        (triple-if (eqb watch.cooldown 0) (λ _. triple-return tt (λ p h. h))
          (λ _. log-triple _ _ _))
        (λ _. return-Paced _ pause-le))

  finish_stabilizing-triple :
      {P : Phase → Type 0} (checks : ℕ)
      → Triple json watch P (finish_stabilizing system json fuel watch checks) Paced
  unfolding finish_stabilizing
  finish_stabilizing-triple checks = triple-bind (log-triple _ _ _) (λ _. return-Paced _ pause-le)

  give_up-triple :
      {P : Phase → Type 0} (recovery : CommandOutput) (final_state : HealthState) (checks : ℕ)
      → Triple json watch P (give_up system json fuel watch recovery final_state checks) Paced
  unfolding give_up
  give_up-triple recovery final_state checks = triple-bind (log-triple _ _ _) (λ _.
      triple-if (is_healthy final_state) (λ _. triple-fail _)
        (λ _. triple-if (is_recovery_failure recovery) (λ _. triple-fail _) (λ _. triple-fail _)))

  stabilize-triple :
      (rounds : ℕ) (recovery : CommandOutput) (started : ℕ) (final_state : HealthState)
      (checks unhealthy repairs : ℕ)
      → Triple json watch
          (At unhealthy repairs)
          (stabilize system json fuel watch rounds recovery started final_state checks)
          Paced
  unfolding stabilize
  stabilize-triple zero recovery started final_state checks unhealthy repairs = triple-out_of_fuel
  stabilize-triple (suc rounds) recovery started final_state checks unhealthy repairs =
      triple-bind (instant_now-triple system json watch) (λ now.
        triple-if (not (ltb (now - started) watch.recovery_stabilization))
          (λ _. give_up-triple recovery final_state checks)
          (λ _. triple-bind (instant_now-triple system json watch) (λ then_now.
            triple-bind (sleep_until_shutdown-triple system json watch (λ p b h. h) fuel _)
              (λ stopped.
                triple-if stopped (λ e. return-stopped stopped e)
                  (λ _.
                    triple-from (λ p h. h.0)
                      (when_allowed-triple unhealthy repairs (
                        with_diagnosis-triple unhealthy repairs (λ next_state.
                          triple-bind (log-triple _ _ _) (λ _.
                            triple-if (is_healthy next_state) (λ _. finish_recovery-triple _)
                              (λ _.
                                triple-if (is_syncing next_state) (λ _. finish_stabilizing-triple _)
                                  (λ _.
                                    stabilize-triple rounds recovery started next_state _
                                      (count next_state unhealthy) repairs)))))))))))

  check_recovery-triple :
      (recovery : CommandOutput) (unhealthy repairs : ℕ)
      → Triple json watch
          (At unhealthy repairs)
          (check_recovery system json fuel watch recovery)
          Paced
  unfolding check_recovery
  check_recovery-triple recovery unhealthy repairs = when_allowed-triple unhealthy repairs (
      with_diagnosis-triple unhealthy repairs (λ post. triple-bind (log-triple _ _ _) (λ _.
        triple-if (is_healthy post) (λ _. finish_recovery-triple _)
          (λ _.
            triple-if (is_syncing post) (λ _. finish_stabilizing-triple _)
              (λ _. triple-bind (log-triple _ _ _) (λ _.
                triple-bind (instant_now-triple system json watch) (λ started.
                  stabilize-triple fuel recovery started post _ (count post unhealthy)
                    repairs)))))))

  failure-triple :
      {P : Phase → Type 0} (recovery : CommandOutput)
      → Triple json watch P (log_recovery_command_failure system json fuel watch recovery) (λ _. P)
  unfolding log_recovery_command_failure
  failure-triple recovery = log-triple _ _ _

  recover-triple :
      (unhealthy : ℕ)
      → leb (needed json watch) unhealthy ≡ true
      → Triple json watch (At unhealthy 0) (recover system json fuel watch) Paced
  unfolding recover command_of accepts
  recover-triple unhealthy enough = when_allowed-triple unhealthy 0 (
      triple-bind (log-triple _ _ _) (λ _.
        triple-bind
          (triple-from (λ p h. (h.0, ground (arith, enough, h.0.0, h.0.1, h.1)))
            (triple-in_context _ (
              run_shell_command-triple system json watch repair unhealthy 0 fuel watch.shell
                watch.config.recovery watch.timeout (eq_refl _))))
          (λ recovery.
            triple-bind (is_requested-triple system json watch (λ p b h. h)) (λ requested.
              triple-if requested
                (λ e. triple-from (λ p h. (h.0, λ _. h.1 ∙ e)) (return-stopped requested e))
                (λ _. triple-bind (log-triple _ _ _) (λ _.
                  triple-if
                    (is_some watch.config.allow_command
                      && (has_code recovery.code (pos 75) && not recovery.timed_out))
                    (λ _. triple-bind (log-triple _ _ _) (λ _. return-Paced _ interval-le))
                    (λ _.
                      triple-bind
                        (triple-if (is_recovery_failure recovery) (λ _. failure-triple recovery)
                          (λ _. triple-return tt (λ p h. h)))
                        (λ _.
                          triple-from (λ p h. h.0)
                            (check_recovery-triple recovery unhealthy 1)))))))))

  confirm-triple : Triple json watch (At 1 0) (confirm system json fuel watch) Paced
  unfolding confirm needed
  confirm-triple =
      triple-if (eqb watch.confirm_after 0) (λ e. recover-triple 1 (ground (arith, e)))
        (λ e. triple-bind (log-triple _ _ _) (λ _.
          triple-bind (sleep_until_shutdown-triple system json watch (λ p b h. h) fuel _)
            (λ stopped.
              triple-if stopped (λ e. return-stopped stopped e)
                (λ _.
                  triple-from (λ p h. h.0)
                    (when_allowed-triple 1 0 (
                      with_diagnosis-triple 1 0 (λ confirmed. triple-bind (log-triple _ _ _) (λ _.
                        triple-if (is_unhealthy confirmed)
                          (λ u.
                            triple-from (λ p h. (ground (arith, u, h.0), h.1))
                              (recover-triple 2 (ground (arith, e))))
                          (λ _. return-Paced _ interval-le)))))))))

  pub run_watch_cycle-triple :
      Triple json watch (At 0 0) (run_watch_cycle system json fuel watch) Paced
  unfolding run_watch_cycle
  run_watch_cycle-triple = when_allowed-triple 0 0 (
      triple-bind (log-triple _ _ _) (λ _. with_diagnosis-triple 0 0 (λ initial_state.
        triple-bind (log-triple _ _ _) (λ _.
          triple-if (is_unhealthy initial_state)
            (λ u. triple-from (λ p h. (ground (arith, u, h.0), h.1)) confirm-triple)
            (λ _. return-Paced _ interval-le)))))

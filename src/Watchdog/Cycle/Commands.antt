-- ===== src/Watchdog/Cycle/Commands.antt =====
-- What running a command and sleeping do to the observer of a cycle
-- (crates/belter-watchdog/src/main.rs).
use btc_infra_tools.Base.{
  ℕ, zero, suc, ◌^◌, ◌≡◌, refl, ap, ◌∙◌, some, List, String, Bool, true, false, ◌&&◌, ◌||◌, ◌==◌,
  arith, is_empty, eqb, ltb, leb,
}
use btc_infra_tools.Base.Result.{Result, ok, err}
use btc_infra_tools.Watchdog.Config.{EffectiveWatch}
use btc_infra_tools.Watchdog.Json.{Json}
use btc_infra_tools.Watchdog.Health.{CommandOutput}
use btc_infra_tools.Watchdog.World.{
  Purpose, admission, diagnosis, repair, Signal, Output, System, collected, asked_shutdown,
  read_clock, slept, polled, signalled, killed, spawned, seen_set, is_requested, instant_now,
  thread_sleep, perform,
}
use btc_infra_tools.Watchdog.Process.{
  collect, try_wait, send_signal, await_exit, terminate_child, poll_child, run_shell_command,
  sleep_until, sleep_until_shutdown,
}
use btc_infra_tools.Watchdog.Cycle.Phase.{
  Phase, with_flag, next_count, ended_well, conclude, command_of, accepts, count_repair, advance,
}
use btc_infra_tools.Watchdog.Cycle.Triple.{
  Triple, triple-return, triple-fail, triple-out_of_fuel, triple-in_context, triple-perform,
  triple-attempt, triple-block_on, triple-if, triple-option, triple-to, triple-from, triple-bind,
}

-- So many unhealthy diagnoses in a row and recovery commands.
abbrev pub At : ℕ → ℕ → Phase → Type 0
At checks repairs p = (p.unhealthy_checks ≡ checks) × (p.repairs ≡ repairs)

abbrev pub Runs : Purpose → ℕ → ℕ → Phase → Type 0
Runs purpose checks repairs p = (p.running ≡ some purpose) × At checks repairs p

-- Reading the shutdown token changes nothing that `P` says.
abbrev pub Steady : (Phase → Type 0) → Type 0
Steady P = (p : Phase) (b : Bool) → P p → P (record p { stopped = b })

module _ (system : System) (json : Json) (watch : EffectiveWatch) where
  -- What is known of the phase when a command has ended.
  abbrev pub Collected : Purpose → ℕ → ℕ → CommandOutput → Phase → Type 0
  Collected admission checks repairs output p =
      At checks repairs p × (p.granted ≡ ended_well json watch output)
  Collected diagnosis checks repairs output p = At (next_count json watch output checks) repairs p
  Collected repair checks repairs output p = At checks repairs p

  module _ {P : Phase → Type 0} where
    pub is_requested-triple :
        Steady P → Triple json watch P (is_requested system) (λ b p. P p × (p.stopped ≡ b))
    unfolding is_requested advance
    is_requested-triple steady =
        triple-perform (λ t. seen_set t || system.signal_came t) asked_shutdown
          (λ t p s l h. (l, (steady p _ h, ground (arith, s))))

    pub instant_now-triple : Triple json watch P (instant_now system) (λ _. P)
    unfolding instant_now advance
    instant_now-triple = triple-perform system.now read_clock (λ t p s l h. (l, h))

    pub thread_sleep-triple : (d : ℕ) → Triple json watch P (thread_sleep system d) (λ _. P)
    unfolding thread_sleep advance
    thread_sleep-triple d = triple-perform (λ t. tt) (λ _. slept d) (λ t p s l h. (l, h))

    killed-triple : Triple json watch P (perform (λ t. tt) (λ _. killed)) (λ _. P)
    unfolding advance
    killed-triple = triple-perform (λ t. tt) (λ _. killed) (λ t p s l h. (l, h))

    try_wait-triple : (child : ℕ) → Triple json watch P (try_wait system child) (λ _. P)
    unfolding try_wait advance
    try_wait-triple child =
        triple-attempt (λ t. system.try_wait t child) polled (λ t p s l h. (l, λ _ _. h))

    send_signal-triple :
        (signal : Signal) (message : String) (child : ℕ)
        → Triple json watch P (send_signal system signal message child) (λ _. P)
    unfolding send_signal advance
    send_signal-triple signal message child =
        triple-bind
          (triple-perform (λ t. system.killpg t child signal) (signalled signal)
            (λ t p s l h. (l, h)))
          (λ error.
            triple-option error (λ _. triple-return tt (λ p h. h))
              (λ code _.
                triple-if (eqb code 3) (λ _. triple-return tt (λ p h. h))
                  (λ _. triple-in_context message (triple-fail _))))

    await_exit-triple :
        (fuel deadline child : ℕ)
        → Triple json watch P (await_exit system fuel deadline child) (λ _. P)
    unfolding await_exit
    await_exit-triple zero deadline child = triple-out_of_fuel
    await_exit-triple (suc fuel) deadline child = triple-bind instant_now-triple (λ now.
        triple-if (ltb now deadline)
          (λ _. triple-bind (try_wait-triple child) (λ done.
            triple-if done (λ _. triple-return true (λ p h. h))
              (λ _.
                triple-bind (thread_sleep-triple _) (λ _. await_exit-triple fuel deadline child))))
          (λ _. triple-return false (λ p h. h)))

    terminate_child-triple :
        (fuel child : ℕ) → Triple json watch P (terminate_child system fuel child) (λ _. P)
    unfolding terminate_child
    terminate_child-triple fuel child =
        triple-if (leb (2 ^ 31) child) (λ _. triple-in_context _ (triple-fail _))
          (λ _. triple-bind (send_signal-triple _ _ child) (λ _.
            triple-bind instant_now-triple (λ now.
              triple-bind (await_exit-triple fuel _ child) (λ done.
                triple-if done (λ _. triple-return tt (λ p h. h))
                  (λ _. send_signal-triple _ _ child)))))

    sleep_until-triple :
        Steady P
        → (fuel deadline : ℕ)
        → Triple json watch P
            (sleep_until system fuel deadline)
            (λ b p. P p × (b ≡ true → p.stopped ≡ true))
    unfolding sleep_until
    sleep_until-triple steady zero deadline = triple-out_of_fuel
    sleep_until-triple steady (suc fuel) deadline = triple-bind instant_now-triple (λ now.
        triple-if (ltb now deadline)
          (λ _. triple-bind (is_requested-triple steady) (λ requested.
            triple-if requested (λ e. triple-return true (λ p h. (h.0, λ _. h.1 ∙ e)))
              (λ _.
                triple-from (λ p h. h.0)
                  (triple-bind instant_now-triple (λ again.
                    triple-bind (thread_sleep-triple _)
                      (λ _. sleep_until-triple steady fuel deadline))))))
          (λ _. triple-to (λ b p h. (h.0, λ e. h.1 ∙ e)) (is_requested-triple steady)))

    pub sleep_until_shutdown-triple :
        Steady P
        → (fuel duration : ℕ)
        → Triple json watch P
            (sleep_until_shutdown system fuel duration)
            (λ b p. P p × (b ≡ true → p.stopped ≡ true))
    unfolding sleep_until_shutdown
    sleep_until_shutdown-triple steady fuel duration =
        triple-bind instant_now-triple (λ now. sleep_until-triple steady fuel _)

  spawned-advance :
      (purpose : Purpose) (command : String) (r : Result ℕ) (p : Phase)
      → p.legal ≡ true
      → (command == command_of json watch purpose && accepts json watch purpose p) ≡ true
      → (advance json watch (spawned purpose command r) p).legal ≡ true
  unfolding advance
  spawned-advance purpose command r p l h = ground (arith, l, h)

  collected-advance :
      (purpose : Purpose) (checks repairs : ℕ) (timed_out : Bool) (r : Result Output) (p : Phase)
      → p.legal ≡ true
      → Runs purpose checks repairs p
      → ((advance json watch (collected timed_out r) p).legal ≡ true)
        × ((output : Output)
            → r ≡ ok output
            → Collected purpose checks repairs
                (with_flag json watch timed_out output)
                (advance json watch (collected timed_out r) p))
  unfolding advance conclude
  collected-advance purpose checks repairs timed_out (err e) p l h = (l, λ output q. cc)
  collected-advance admission checks repairs timed_out (ok output) p l (run, at) =
      (rw run l, λ other q. let e : output ≡ other = cc in rw (← e) (rw run (at, refl)))
  collected-advance diagnosis checks repairs timed_out (ok output) p l (run, at) = (
    rw run l,
    λ other q.
        let e : output ≡ other = cc in
        rw (← e)
          (rw run (ap (next_count json watch (with_flag json watch timed_out output)) at.0, at.1)),
  )
  collected-advance repair checks repairs timed_out (ok output) p l (run, at) =
      (rw run l, λ other q. rw run at)

  module _ (purpose : Purpose) (checks repairs : ℕ) where
    collect-triple :
        (timed_out : Bool) (child : ℕ)
        → Triple json watch
            (Runs purpose checks repairs)
            (collect system timed_out child)
            (Collected purpose checks repairs)
    unfolding collect
    collect-triple timed_out child =
        triple-bind
          {Q = λ output. Collected purpose checks repairs (with_flag json watch timed_out output)}
          (triple-block_on (λ t. system.wait_with_output t child) (collected timed_out)
            (λ t p s l h o. collected-advance purpose checks repairs timed_out o p l h))
          (λ output. triple-return _ (λ p h. h))

    poll_child-triple :
        (fuel deadline child : ℕ)
        → Triple json watch
            (Runs purpose checks repairs)
            (poll_child system fuel deadline child)
            (Collected purpose checks repairs)
    unfolding poll_child
    poll_child-triple zero deadline child = triple-out_of_fuel
    poll_child-triple (suc fuel) deadline child =
        triple-bind (is_requested-triple (λ p b h. h)) (λ requested.
          triple-from (λ p h. h.0)
            (triple-if requested
              (λ _.
                triple-bind (terminate_child-triple fuel child) (λ _. collect-triple false child))
              (λ _. triple-bind (try_wait-triple child) (λ done.
                triple-if done (λ _. collect-triple false child)
                  (λ _. triple-bind instant_now-triple (λ now.
                    triple-if (leb deadline now)
                      (λ _. triple-bind (killed-triple) (λ _. collect-triple true child))
                      (λ _.
                        triple-bind (thread_sleep-triple _)
                          (λ _. poll_child-triple fuel deadline child))))))))

  module _ (purpose : Purpose) (checks repairs : ℕ) where
    pub run_shell_command-triple :
        (fuel : ℕ) (shell : List String) (command : String) (timeout : ℕ)
        → (command == command_of json watch purpose) ≡ true
        → Triple json watch
            (λ p. At checks repairs p × (accepts json watch purpose p ≡ true))
            (run_shell_command system fuel purpose shell command timeout)
            (Collected purpose checks (count_repair json watch purpose repairs))
    unfolding run_shell_command advance
    run_shell_command-triple fuel shell command timeout e =
        triple-if (is_empty shell) (λ _. triple-fail _)
          (λ _.
            triple-bind {Q = λ _. Runs purpose checks (count_repair json watch purpose repairs)}
              (triple-in_context _ (
                triple-attempt (λ t. system.spawn t shell command) (spawned purpose command)
                  (λ t p s l h. (
                    spawned-advance purpose command (system.spawn t shell command) p l (rw e h.1),
                    λ child _. (refl, (h.0.0, ap (count_repair json watch purpose) h.0.1)),
                  ))))
              (λ child. triple-bind instant_now-triple (λ now.
                poll_child-triple purpose checks (count_repair json watch purpose repairs) fuel _
                  child)))

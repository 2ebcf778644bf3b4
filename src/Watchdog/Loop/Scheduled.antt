-- ===== src/Watchdog/Loop/Scheduled.antt =====
-- The main loop of the watchdog is a run of the scheduler of its specification
-- (crates/belter-watchdog/src/main.rs).
use btc_infra_tools.Base.{
  ℕ, zero, suc, refl, String, Option, none, some, List, [], ◌∷◌, Bool, arith, All, is_empty,
}
use btc_infra_tools.Base.Result.{ok, err}
use btc_infra_tools.Base.Fuel.{Fueled}
use btc_infra_tools.Watchdog.Config.{WatchConfig, WatchdogConfig}
use btc_infra_tools.Watchdog.Json.{Json}
use btc_infra_tools.Watchdog.World.{Trace, System, read_clock, instant_now}
use btc_infra_tools.Watchdog.Rules.{
  Reaches, Leads, leads-return, leads-fail, leads-out_of_fuel, leads-perform, leads-if, leads-cases,
  leads-from, leads-bind,
}
use btc_infra_tools.Watchdog.Loop.{
  WatchStates, enabled_watches, pause, watch_pass, watch_loop, run_watchdog,
}
use btc_infra_tools.Watchdog.Loop.Schedule.{is_quiet, Schedule, begin, quiet}
use btc_infra_tools.Watchdog.Loop.Quiet.{
  instant_now-Stays, log_shutdown-Stays, sleep_until_shutdown-Stays,
}
use btc_infra_tools.Watchdog.Loop.Readings.{Seen}
use btc_infra_tools.Watchdog.Loop.Visits.{
  Enabled, Runs, Known, enabled_watches-Enabled, Passed, unless_requested-leads,
  visit_watches-leads,
}

module _ (json : Json) (config : WatchdogConfig) (start : Trace) (system : System) (fuel : ℕ) where
  module _ (once : Bool) where
    -- What the body of the loop leaves.
    abbrev Left : Option WatchStates → Trace → Type 0
    Left none t = (Runs json config start system fuel) t
    Left (some states) t = Schedule json config start system fuel none states t

    Left-Runs :
        (states : WatchStates) (t : Trace)
        → Left (some states) t
        → (Runs json config start system fuel) t
    unfolding Runs
    Left-Runs states t h = (none, states, h)

    read-Known :
        (states : WatchStates) (at : ℕ) (t : Trace)
        → Schedule json config start system fuel none states t
        → (Known json config start system fuel) at none states (read_clock at ∷ t)
    unfolding Known Seen is_quiet
    read-Known states at t h = (quiet (read_clock at) refl h, λ due q. ground (arith, q))

    pause-leads :
        (states : WatchStates) (next_due : ℕ)
        → Leads
            (Runs json config start system fuel)
            (λ e. (Runs json config start system fuel))
            (Left (some states))
            (pause system json fuel config once states next_due)
            Left
    unfolding pause
    pause-leads states next_due =
        leads-bind
          (instant_now-Stays system (Runs json config start system fuel) _ (λ e t q h. quiet e q h)
            (Left-Runs states))
          (λ again.
            leads-bind
              (sleep_until_shutdown-Stays system (Runs json config start system fuel) _
                (λ e t q h. quiet e q h) (Left-Runs states) fuel _)
              (λ stopped.
                leads-if stopped
                  (λ _.
                    leads-bind
                      (log_shutdown-Stays system (Runs json config start system fuel) _
                        (λ e t q h. quiet e q h) (Left-Runs states))
                      (λ _. leads-return none (Left-Runs states)))
                  (λ _. leads-return _ (λ t h. h))))

    watch_pass-leads :
        (watches : List WatchConfig) (states : WatchStates)
        → All (Enabled json config start system fuel) watches
        → Leads
            (Runs json config start system fuel)
            (λ e. (Runs json config start system fuel))
            (Left (some states))
            (watch_pass system json fuel config once watches states)
            Left
    unfolding watch_pass instant_now Known
    watch_pass-leads watches states enabled =
        unless_requested-leads json config start system fuel once Left (λ e t q h. quiet e q h)
          (Left-Runs states) (Left-Runs states)
          (leads-bind {Q = λ now. (Known json config start system fuel) now none states}
            (leads-perform system.now read_clock (λ t h. read-Known states (system.now t) t h.0))
            (λ now.
              leads-bind
                (visit_watches-leads json config start system fuel once now watches states _
                  enabled)
                (λ passed.
                  leads-cases ((Passed json config start system fuel) now) passed
                    (leads-return none (λ t h. h))
                    (λ found.
                      leads-if once (λ _. leads-return none (λ t h. Left-Runs found.0 t h.0))
                        (λ _. leads-from (λ t h. h.0) (pause-leads found.0 found.1))))))

    watch_loop-leads :
        (rounds : ℕ) (watches : List WatchConfig) (states : WatchStates)
        → All (Enabled json config start system fuel) watches
        → Leads
            (Runs json config start system fuel)
            (λ e. (Runs json config start system fuel))
            (Left (some states))
            (watch_loop system json fuel config once rounds watches states)
            (λ done. (Runs json config start system fuel))
    unfolding watch_loop
    watch_loop-leads zero watches states enabled = leads-out_of_fuel (Left-Runs states)
    watch_loop-leads (suc rounds) watches states enabled =
        leads-bind (watch_pass-leads watches states enabled) (λ passed.
          leads-cases Left passed (leads-return tt (λ t h. h))
            (λ next_states. watch_loop-leads rounds watches next_states enabled))

    run_watchdog-leads :
        Leads
          (Runs json config start system fuel)
          (λ e. (Runs json config start system fuel))
          (Left (some []))
          (run_watchdog system json fuel config once)
          (λ done. (Runs json config start system fuel))
    unfolding run_watchdog
    run_watchdog-leads =
        leads-if (is_empty (enabled_watches config.watch)) (λ _. leads-fail _ (Left-Runs []))
          (λ _.
            watch_loop-leads fuel _ []
              (enabled_watches-Enabled json config start system fuel config.watch (λ w m. m)))

Runs-of-Reaches :
    (R : Trace → Type 0) (outcome : Fueled (Unit {0}) × Trace)
    → Reaches R (λ e. R) (λ done. R) outcome
    → R outcome.1
Runs-of-Reaches R (none, t) h = h
Runs-of-Reaches R (some (err e), t) h = h
Runs-of-Reaches R (some (ok done), t) h = h

-- Whatever the system answers, the trace of the watchdog is a run of the scheduler: commands are run
-- only in cycles of an enabled watch, each acceptable to the observer of cycles, and each begun with no
-- shutdown seen and no earlier than the next check of the watch. After each cycle the next check of its
-- watch is set before another cycle begins, at least the interval of the watch after a reading of the
-- clock that comes after the cycle, and nothing else sets or clears it. It holds where the watchdog ends,
-- where it fails, and where the fuel runs out.
pub run_watchdog-scheduled :
    (system : System) (json : Json) (fuel : ℕ) (config : WatchdogConfig) (once : Bool) (t : Trace)
    → (owed : Option (String × ℕ)) × (states : WatchStates) × Schedule json config t system fuel
        owed states
        (run_watchdog system json fuel config once t).1
unfolding Runs
run_watchdog-scheduled system json fuel config once t =
    Runs-of-Reaches (Runs json config t system fuel) (run_watchdog system json fuel config once t)
      ((run_watchdog-leads json config t system fuel once).run t begin)

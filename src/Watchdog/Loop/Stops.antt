-- ===== src/Watchdog/Loop/Stops.antt =====
-- The main loop of the watchdog ends without an error only by a shutdown
-- (crates/belter-watchdog/src/main.rs).
use btc_infra_tools.Base.{
  ℕ, zero, suc, ◌≡◌, Option, none, some, List, [], ◌∷◌, true, false, ◌||◌, arith, is_empty, ltb,
}
use btc_infra_tools.Base.Result.{ok, err}
use btc_infra_tools.Base.Fuel.{Fueled}
use btc_infra_tools.Watchdog.Config.{WatchConfig, WatchdogConfig}
use btc_infra_tools.Watchdog.Json.{Json}
use btc_infra_tools.Watchdog.World.{Trace, System, Act, seen_set, return, is_requested, instant_now}
use btc_infra_tools.Watchdog.Process.{sleep_until, sleep_until_shutdown}
use btc_infra_tools.Watchdog.Rules.{
  Reaches, Leads, leads-return, leads-fail, leads-out_of_fuel, leads-if, leads-option, leads-cases,
  leads-from, leads-to, leads-bind,
}
use btc_infra_tools.Watchdog.Loop.{
  WatchStates, log_shutdown, state_of, waits_until, enabled_watches, delay_of, unless_requested,
  run_due, visit_watch, visit_watches, pause, watch_pass, watch_loop, run_watchdog,
}
use btc_infra_tools.Watchdog.Loop.Quiet.{Closed, is_requested-tells, log_shutdown-Stays}
use btc_infra_tools.Watchdog.Loop.Readings.{seen_or-cons}

Always : Trace → Type 0
Always t = Unit

Requested : Trace → Type 0
Requested t = (seen_set t || false) ≡ true

Requested-closed : Closed Requested
unfolding Requested
Requested-closed e t q h = seen_or-cons false e t h

Reaches-any :
    {A : Type 0} (outcome : Fueled A × Trace)
    → Reaches Always (λ e. Always) (λ a t. Always t) outcome
unfolding Always
Reaches-any (none, t) = tt
Reaches-any (some (err e), t) = tt
Reaches-any (some (ok a), t) = tt

-- Nothing is claimed of failures.
abbrev Ends : {A : Type 0} → Act A → (A → Trace → Type 0) → Type 0
Ends act Q = Leads Always (λ e. Always) Always act Q

leads-any : {A : Type 0} (act : Act A) → Ends act (λ a. Always)
leads-any act = record { run = λ t h. Reaches-any (act t) }

-- The return from the function, which a shutdown caused.
abbrev Stopped : {A : Type 0} → Option A → Trace → Type 0
Stopped none t = Requested t
Stopped (some a) t = Always t

module _ (system : System) where
  Requested-tells : Ends (is_requested system) (λ b t. b ≡ true → Requested t)
  unfolding Always Requested
  Requested-tells =
      leads-to (λ b t h e. ground (arith, h.1, e))
        (is_requested-tells system Always Always (λ e t q h. tt) (λ t h. tt))

  sleep_until-tells :
      (fuel deadline : ℕ) → Ends (sleep_until system fuel deadline) (λ b t. b ≡ true → Requested t)
  unfolding sleep_until Always
  sleep_until-tells zero deadline = leads-out_of_fuel (λ t h. tt)
  sleep_until-tells (suc fuel) deadline = leads-bind (leads-any (instant_now system)) (λ now.
      leads-if (ltb now deadline)
        (λ _. leads-bind Requested-tells (λ requested.
          leads-if requested (λ e. leads-return true (λ t h _. h e))
            (λ _.
              leads-from (λ t h. tt)
                (leads-bind (leads-any _)
                  (λ again. leads-bind (leads-any _) (λ done. sleep_until-tells fuel deadline))))))
        (λ _. Requested-tells))

  sleep_until_shutdown-tells :
      (fuel duration : ℕ)
      → Ends (sleep_until_shutdown system fuel duration) (λ b t. b ≡ true → Requested t)
  unfolding sleep_until_shutdown
  sleep_until_shutdown-tells fuel duration =
      leads-bind (leads-any (instant_now system)) (λ now. sleep_until-tells fuel _)

  log_shutdown-Requested :
      Leads Always (λ e. Always) Requested (log_shutdown system) (λ done. Requested)
  unfolding Always
  log_shutdown-Requested = log_shutdown-Stays system Always Requested Requested-closed (λ t h. tt)

  module _ (json : Json) (fuel : ℕ) (config : WatchdogConfig) where
    unless_requested-stops :
        {A : Type 0} {rest : Act (Option A)}
        → Ends rest Stopped
        → Ends (unless_requested system json fuel config false rest) Stopped
    unfolding Always
    unless_requested-stops f = leads-bind Requested-tells (λ requested.
        leads-if requested
          (λ e.
            leads-from (λ t h. h e)
              (leads-bind log_shutdown-Requested (λ done. leads-return none (λ t h. h))))
          (λ e. leads-from (λ t h. tt) f))

    return-Always : {A : Type 0} (a : A) → Ends (return (some a)) Stopped
    return-Always a = leads-return (some a) (λ t h. h)

    visit_watch-stops :
        (now : ℕ) (watch : WatchConfig) (states : WatchStates) (next_due : ℕ)
        → Ends (visit_watch system json fuel config false now watch states next_due) Stopped
    unfolding visit_watch run_due
    visit_watch-stops now watch states next_due = unless_requested-stops (
        leads-bind (leads-any _) (λ effective.
          leads-option (waits_until now (state_of watch.name states))
            (λ w.
              leads-bind (leads-any (delay_of system json fuel config false effective)) (λ delay.
                unless_requested-stops (leads-bind (leads-any _) (λ at. return-Always _))))
            (λ due w. return-Always _)))

    visit_watches-stops :
        (now : ℕ) (watches : List WatchConfig) (states : WatchStates) (next_due : ℕ)
        → Ends (visit_watches system json fuel config false now watches states next_due) Stopped
    unfolding visit_watches
    visit_watches-stops now [] states next_due = return-Always _
    visit_watches-stops now (watch ∷ watches) states next_due =
        leads-bind (visit_watch-stops now watch states next_due) (λ passed.
          leads-cases Stopped passed (leads-return none (λ t h. h))
            (λ found. visit_watches-stops now watches found.0 found.1))

    pause-stops :
        (states : WatchStates) (next_due : ℕ)
        → Ends (pause system json fuel config false states next_due) Stopped
    unfolding pause Always
    pause-stops states next_due = leads-bind (leads-any _) (λ again.
        leads-bind (sleep_until_shutdown-tells fuel _) (λ stopped.
          leads-if stopped
            (λ e.
              leads-from (λ t h. h e)
                (leads-bind log_shutdown-Requested (λ done. leads-return none (λ t h. h))))
            (λ e. leads-from (λ t h. tt) (return-Always states))))

    watch_pass-stops :
        (watches : List WatchConfig) (states : WatchStates)
        → Ends (watch_pass system json fuel config false watches states) Stopped
    unfolding watch_pass
    watch_pass-stops watches states = unless_requested-stops (
        leads-bind (leads-any _) (λ now.
          leads-bind (visit_watches-stops now watches states _) (λ passed.
            leads-cases Stopped passed (leads-return none (λ t h. h))
              (λ found. pause-stops found.0 found.1))))

    watch_loop-stops :
        (rounds : ℕ) (watches : List WatchConfig) (states : WatchStates)
        → Ends (watch_loop system json fuel config false rounds watches states) (λ done. Requested)
    unfolding watch_loop Always
    watch_loop-stops zero watches states = leads-out_of_fuel (λ t h. tt)
    watch_loop-stops (suc rounds) watches states =
        leads-bind (watch_pass-stops watches states) (λ passed.
          leads-cases Stopped passed (leads-return tt (λ t h. h))
            (λ next_states. watch_loop-stops rounds watches next_states))

    run_watchdog-stops : Ends (run_watchdog system json fuel config false) (λ done. Requested)
    unfolding run_watchdog Always
    run_watchdog-stops =
        leads-if (is_empty (enabled_watches config.watch)) (λ _. leads-fail _ (λ t h. tt))
          (λ _. watch_loop-stops fuel _ [])

Requested-of-Reaches :
    (outcome : Fueled (Unit {0}) × Trace)
    → Reaches Always (λ e. Always) (λ done. Requested) outcome
    → outcome.0 ≡ some (ok tt)
    → seen_set outcome.1 ≡ true
unfolding Requested
Requested-of-Reaches (none, t) h e = cc
Requested-of-Reaches (some (err f), t) h e = cc
Requested-of-Reaches (some (ok tt), t) h e = ground (arith, h)

-- Where the watchdog ends without an error, and was not told to run its watches once only, the shutdown
-- token was seen set.
pub run_watchdog-stopped :
    (system : System) (json : Json) (fuel : ℕ) (config : WatchdogConfig) (t : Trace)
    → (run_watchdog system json fuel config false t).0 ≡ some (ok tt)
    → seen_set (run_watchdog system json fuel config false t).1 ≡ true
unfolding Always
run_watchdog-stopped system json fuel config t =
    Requested-of-Reaches (run_watchdog system json fuel config false t)
      ((run_watchdog-stops system json fuel config).run t tt)

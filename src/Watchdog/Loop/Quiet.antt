-- ===== src/Watchdog/Loop/Quiet.antt =====
-- The actions of the watchdog that start no command (crates/belter-watchdog/src/main.rs): they
-- keep what every event but the start of a command keeps.
use btc_infra_tools.Base.{ℕ, zero, suc, ◌≡◌, refl, ◌∷◌, String, true, false, ◌||◌, arith, ltb}
use btc_infra_tools.Watchdog.World.{
  Event, Trace, System, Act, asked_shutdown, read_clock, slept, stamped, wrote, seen_set,
  is_requested, instant_now, thread_sleep,
}
use btc_infra_tools.Watchdog.Process.{sleep_until, sleep_until_shutdown}
use btc_infra_tools.Watchdog.Rules.{
  Leads, leads-perform, leads-attempt, leads-bind, leads-return, leads-if, leads-from, leads-to,
  leads-out_of_fuel,
}
use btc_infra_tools.Watchdog.Loop.{log_error, log_shutdown}
use btc_infra_tools.Watchdog.Loop.Schedule.{is_quiet}

-- What holds after an event that starts no command, if it held before.
abbrev pub Closed : (Trace → Type 0) → Type 0
Closed R = (e : Event) (t : Trace) → is_quiet e ≡ true → R t → R (e ∷ t)

module _ (system : System) (X R : Trace → Type 0) (closed : Closed R)
    (out : (t : Trace) → R t → X t) where
  -- The action keeps `R`, which gives `X` where the action fails or runs out of fuel.
  abbrev Stays : {A : Type 0} → Act A → Type 0
  Stays act = Leads X (λ e t. X t) R act (λ a t. R t)

  pub instant_now-Stays : Stays (instant_now system)
  unfolding instant_now is_quiet
  instant_now-Stays = leads-perform system.now read_clock (λ t h. closed _ t refl h)

  pub thread_sleep-Stays : (d : ℕ) → Stays (thread_sleep system d)
  unfolding thread_sleep is_quiet
  thread_sleep-Stays d = leads-perform (λ t. tt) (λ _. slept d) (λ t h. closed _ t refl h)

  pub is_requested-tells :
      Leads X (λ e t. X t) R (is_requested system) (λ b t. R t × (seen_set t ≡ b))
  unfolding is_requested is_quiet seen_set
  is_requested-tells =
      leads-perform (λ t. seen_set t || system.signal_came t) asked_shutdown
        (λ t h. (closed _ t refl h, ground arith))

  pub log_error-Stays : (watch event detail : String) → Stays (log_error system watch event detail)
  unfolding log_error is_quiet
  log_error-Stays watch event detail =
      leads-bind (leads-perform system.now_utc_rfc3339 stamped (λ t h. closed _ t refl h)) (λ stamp.
        leads-attempt (λ t. system.write_line t true _) (wrote true _)
          (λ t h a e. closed _ t refl h) (λ t h a e. out _ (closed _ t refl h)))

  pub log_shutdown-Stays : Stays (log_shutdown system)
  unfolding log_shutdown is_quiet
  log_shutdown-Stays =
      leads-bind (leads-perform system.now_utc_rfc3339 stamped (λ t h. closed _ t refl h)) (λ stamp.
        leads-attempt (λ t. system.write_line t false _) (wrote false _)
          (λ t h a e. closed _ t refl h) (λ t h a e. out _ (closed _ t refl h)))

  sleep_until-Stays : (fuel deadline : ℕ) → Stays (sleep_until system fuel deadline)
  unfolding sleep_until
  sleep_until-Stays zero deadline = leads-out_of_fuel out
  sleep_until-Stays (suc fuel) deadline = leads-bind instant_now-Stays (λ now.
      leads-if (ltb now deadline)
        (λ _. leads-bind is_requested-tells (λ requested.
          leads-from (λ t h. h.0)
            (leads-if requested (λ _. leads-return true (λ t h. h))
              (λ _. leads-bind instant_now-Stays (λ again.
                leads-bind (thread_sleep-Stays _) (λ _. sleep_until-Stays fuel deadline))))))
        (λ _. leads-to (λ b t h. h.0) is_requested-tells))

  pub sleep_until_shutdown-Stays :
      (fuel duration : ℕ) → Stays (sleep_until_shutdown system fuel duration)
  unfolding sleep_until_shutdown
  sleep_until_shutdown-Stays fuel duration =
      leads-bind instant_now-Stays (λ now. sleep_until-Stays fuel _)

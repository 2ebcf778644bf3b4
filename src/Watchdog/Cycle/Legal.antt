-- ===== src/Watchdog/Cycle/Legal.antt =====
-- The commands that a cycle of a watch runs are acceptable (crates/belter-watchdog/src/main.rs).
use btc_infra_tools.Base.{ℕ, ◌≡◌, refl, true, ◌++◌}
use btc_infra_tools.Watchdog.Config.{EffectiveWatch}
use btc_infra_tools.Watchdog.Json.{Json}
use btc_infra_tools.Watchdog.World.{System, Trace}
use btc_infra_tools.Watchdog.Cycle.{run_watch_cycle}
use btc_infra_tools.Watchdog.Cycle.Phase.{observe, initial}
use btc_infra_tools.Watchdog.Cycle.Stages.{run_watch_cycle-triple}

module _ (system : System) (json : Json) (fuel : ℕ) (watch : EffectiveWatch) where
  -- Every command that a cycle runs is acceptable to the observer, for every behaviour of the system:
  -- each diagnosis and the recovery command come right after an admission that succeeded (or the watch
  -- has none) with no shutdown seen, the recovery command comes at most once, and only after an
  -- unhealthy diagnosis, or after two in a row where the watch has a confirmation delay.
  pub run_watch_cycle-legal :
      (t : Trace)
      → (added : Trace) × ((run_watch_cycle system json fuel watch t).1 ≡ added ++ t)
        × ((observe json watch added (initial json watch t)).legal ≡ true)
  run_watch_cycle-legal t =
      let done =
        (run_watch_cycle-triple system json fuel watch).run t (initial json watch t) refl refl
          (refl, refl) in
      (done.added, done.grows, done.stays_legal)

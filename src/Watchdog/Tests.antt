-- ===== src/Watchdog/Tests.antt =====
-- The theorems about the watchdog's configuration and its judgement of a diagnosis, at an input.
use btc_infra_tools.Base.{refl, [], ◌++◌, ◌≡◌, ◌↔◌, ◌⊎◌, none, some, String, false, true, unwrap_or}
use btc_infra_tools.Base.Int.{pos}
use btc_infra_tools.Base.Result.{ok}
use btc_infra_tools.Watchdog.Config.{validate_config}
use btc_infra_tools.Watchdog.Config.Valid.{IsValid, validate_config-IsValid}
use btc_infra_tools.Watchdog.Json.Shown.{IsText}
use btc_infra_tools.Watchdog.Health.{CommandOutput, healthy, evaluate_health}
use btc_infra_tools.Watchdog.Health.Judged.{Ended, Shows, evaluate_health-healthy}
use btc_infra_tools.Watchdog.World.{Trace, instant_now, is_requested, perform, seen_set, ◌>>=◌}
use btc_infra_tools.Watchdog.Process.{sleep_until, sleep_until_shutdown}
use btc_infra_tools.Watchdog.Process.Waits.{reads_late, sleep_until_shutdown-lasts}
use btc_infra_tools.Watchdog.Cycle.{run_watch_cycle}
use btc_infra_tools.Watchdog.Cycle.Phase.{observe, initial}
use btc_infra_tools.Watchdog.Cycle.Legal.{run_watch_cycle-legal}
use btc_infra_tools.Watchdog.Samples.{
  failing_system, mempool_effective, mempool_watch, sample_config, text_json,
}

abbrev said : String → CommandOutput
said s = record { code = some (pos 0); stdout = s; stderr = ""; timed_out = false }

validate_config-IsValid_example : (validate_config sample_config ≡ ok tt) ↔ IsValid sample_config
validate_config-IsValid_example = validate_config-IsValid sample_config

evaluate_health-healthy_example :
    (evaluate_health text_json mempool_watch (said "running") ≡ healthy) ↔ (
      Ended text_json mempool_watch (said "running")
      × ((mempool_watch.healthy_json_path ≡ none)
          ⊎ ((path : String) × (value : String) × Shows text_json mempool_watch
                (said "running")
                path
                value
              × IsText text_json value (unwrap_or mempool_watch.healthy_equals ""))))
evaluate_health-healthy_example = evaluate_health-healthy text_json mempool_watch (said "running")

run_watch_cycle-legal_example :
    (added : Trace) × ((run_watch_cycle failing_system text_json 20 mempool_effective []).1
      ≡ added ++ [])
    × ((observe text_json mempool_effective added (initial text_json mempool_effective [])).legal
        ≡ true)
run_watch_cycle-legal_example =
    run_watch_cycle-legal failing_system text_json 20 mempool_effective []

sleeps_one : (sleep_until_shutdown failing_system 5 1 []).0 ≡ some (ok false)
unfolding sleep_until_shutdown sleep_until instant_now is_requested perform seen_set ◌>>=◌
sleeps_one = refl

sleep_until_shutdown-lasts_example :
    (reads_late 1 (sleep_until_shutdown failing_system 5 1 []).1 ≡ true)
    × (seen_set (sleep_until_shutdown failing_system 5 1 []).1 ≡ false)
sleep_until_shutdown-lasts_example = sleep_until_shutdown-lasts failing_system 5 1 [] sleeps_one

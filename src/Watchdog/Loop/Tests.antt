-- ===== src/Watchdog/Loop/Tests.antt =====
-- The theorems about the main loop and the end of a cycle, at a configuration of one watch
-- (crates/belter-watchdog/src/main.rs).
use btc_infra_tools.Base.{◌≡◌, ◌≢◌, refl, ℕ, Option, String, none, some, [], true, false, arith}
use btc_infra_tools.Base.Result.{ok}
use btc_infra_tools.Watchdog.Config.{EffectiveWatch}
use btc_infra_tools.Watchdog.World.{System, perform, attempt, is_requested, return, seen_set, ◌>>=◌}
use btc_infra_tools.Watchdog.Process.{from_millis}
use btc_infra_tools.Watchdog.Process.Clock.{reading, Ticks, Returns}
use btc_infra_tools.Watchdog.Process.Ends.{steps}
use btc_infra_tools.Watchdog.Cycle.{run_watch_cycle}
use btc_infra_tools.Watchdog.Cycle.Ends.{Enough, run_watch_cycle-ne-none}
use btc_infra_tools.Watchdog.Loop.{
  WatchStates, enabled_watches, log_shutdown, watch_pass, watch_loop, run_watchdog,
}
use btc_infra_tools.Watchdog.Loop.Schedule.{Schedule}
use btc_infra_tools.Watchdog.Loop.Scheduled.{run_watchdog-scheduled}
use btc_infra_tools.Watchdog.Loop.Stops.{run_watchdog-stopped}
use btc_infra_tools.Watchdog.Samples.{failing_system, sample_config, text_json, mempool_effective}

run_watchdog-scheduled_example :
    (owed : Option (String × ℕ)) × (states : WatchStates) × Schedule text_json sample_config []
      failing_system 20 owed states
      (run_watchdog failing_system text_json 20 sample_config true []).1
run_watchdog-scheduled_example =
    run_watchdog-scheduled failing_system text_json 20 sample_config true []

-- A signal has come before the loop begins.
abbrev signalled_system : System
signalled_system = record failing_system { signal_came = λ t. true }

stops : (run_watchdog signalled_system text_json 20 sample_config false []).0 ≡ some (ok tt)
unfolding run_watchdog enabled_watches watch_loop watch_pass log_shutdown is_requested perform
    attempt return seen_set ◌>>=◌
stops = refl

run_watchdog-stopped_example :
    seen_set (run_watchdog signalled_system text_json 20 sample_config false []).1 ≡ true
run_watchdog-stopped_example =
    run_watchdog-stopped signalled_system text_json 20 sample_config [] stops

-- A clock that shows exactly what was slept.
abbrev ticking_system : System
ticking_system = record failing_system { now = reading }

ticks : Ticks ticking_system
ticks t = omega arith

returns : Returns ticking_system
returns t child = λ h. cc

abbrev quick_watch : EffectiveWatch
quick_watch = record mempool_effective {
  confirm_after = from_millis 100;
  timeout = from_millis 200;
  recovery_stabilization = from_millis 300;
  recovery_poll = from_millis 100;
}

enough : Enough quick_watch 3 50
unfolding steps
enough = record {
  for_commands = omega arith;
  for_confirmation = omega arith;
  for_polls = omega arith;
  for_stabilization = omega arith;
  for_all = omega arith;
}

run_watch_cycle-ne-none_example :
    (run_watch_cycle ticking_system text_json 50 quick_watch []).0 ≢ none
run_watch_cycle-ne-none_example =
    run_watch_cycle-ne-none ticking_system text_json quick_watch 3 50 [] ticks returns enough

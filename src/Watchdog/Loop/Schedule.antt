-- ===== src/Watchdog/Loop/Schedule.antt =====
-- A specification of the watchdog's main loop (crates/belter-watchdog/src/main.rs): which traces
-- are the runs of a scheduler, with the moments at which it knows the watches to be due. It knows
-- nothing of the code of the loop.
use mathlib.Core.List.{Memᴰ}
use btc_infra_tools.Base.{
  ℕ, ◌+◌, ◌≡◌, Option, none, some, [], ◌∷◌, ◌++◌, String, Bool, true, false, leb,
}
use btc_infra_tools.Base.Result.{ok}
use btc_infra_tools.Watchdog.Config.{WatchConfig, WatchdogConfig, EffectiveWatch, effective_watch}
use btc_infra_tools.Watchdog.Json.{Json}
use btc_infra_tools.Watchdog.World.{Event, Trace, System, read_clock, spawned, seen_set}
use btc_infra_tools.Watchdog.Process.Waits.{reads_late}
use btc_infra_tools.Watchdog.Cycle.{run_watch_cycle}
use btc_infra_tools.Watchdog.Cycle.Phase.{observe, initial}
use btc_infra_tools.Watchdog.Loop.{WatchStates, state_of}

-- Whether the event is anything but the start of a command.
unfoldable pub is_quiet : Event → Bool
is_quiet (spawned purpose command r) = false
is_quiet _ = true

-- Whether a watch is due: it has no next check, or the clock was read at or after it.
unfoldable pub is_due : String → WatchStates → Trace → Bool
is_due name states t = elim (state_of name states).next_check [
  | none ↦ true
  | some due ↦ reads_late due t
]

-- The runs from a start, with the watch whose next check has still to be set, its interval, and the next
-- checks. Commands are run in whole cycles of an enabled watch only, which begin when the watch is due and the
-- shutdown token was not seen set, and are acceptable to the observer. After a cycle no other begins
-- until the next check of its watch is set, which is at least its interval after a reading of the clock.
-- Nothing else sets a next check.
pub data Schedule (json : Json) (config : WatchdogConfig) (start : Trace) (system : System)
    (fuel : ℕ) : Option (String × ℕ) → WatchStates → Trace → Type 0 where
  begin : Schedule json config start system fuel none [] start
  quiet :
      {owed : Option (String × ℕ)} {states : WatchStates} {t : Trace} (e : Event)
      → is_quiet e ≡ true
      → Schedule json config start system fuel owed states t
      → Schedule json config start system fuel owed states (e ∷ t)
  cycle :
      {states : WatchStates} {t : Trace} (watch : WatchConfig) (effective : EffectiveWatch)
      (added : Trace)
      → Memᴰ watch config.watch
      → watch.enabled ≡ true
      → effective_watch config watch ≡ ok effective
      → seen_set t ≡ false
      → is_due watch.name states t ≡ true
      → (run_watch_cycle system json fuel effective t).1 ≡ added ++ t
      → (observe json effective added (initial json effective t)).legal ≡ true
      → Schedule json config start system fuel none states t
      → Schedule json config start system fuel
          (some (watch.name, effective.interval))
          states
          (added ++ t)
  next :
      {name : String} {interval : ℕ} {states : WatchStates} {t : Trace} (now delay : ℕ)
      → leb interval delay ≡ true
      → Schedule json config start system fuel (some (name, interval)) states (read_clock now ∷ t)
      → Schedule json config start system fuel none
          ((name, record { next_check = some (now + delay) }) ∷ states)
          (read_clock now ∷ t)

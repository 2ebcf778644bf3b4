-- ===== src/Watchdog/Loop.antt =====
-- The main loop of the watchdog: `run_watchdog`, a function for each of its loops, and the log lines
-- that it writes (crates/belter-watchdog/src/main.rs). The states of the watches are a map by the names
-- of the watches; a watch without an entry has the default state.
mod Tests
pub mod Schedule
pub mod Quiet
pub mod Readings
pub mod Visits
pub mod Scheduled
pub mod Stops
use btc_infra_tools.Base.{
  ℕ, zero, suc, ◌+◌, ◌-◌, min, max, Option, none, some, List, [], ◌∷◌, String, Bool, true, false,
  lookup, is_empty, ltb, unwrap_or, if◌then◌else◌,
}
use btc_infra_tools.Base.Text.{◌⧺◌}
use btc_infra_tools.Base.Result.{anyhow}
use btc_infra_tools.Watchdog.Config.{
  WatchConfig, WatchdogConfig, EffectiveWatch, default_interval_seconds, from_secs, effective_watch,
}
use btc_infra_tools.Watchdog.Json.{Json}
use btc_infra_tools.Watchdog.Log.{sanitize_log_detail, format_log_line}
use btc_infra_tools.Watchdog.World.{
  System, Act, ◌>>=◌, ◌>>◌, return, fail, lift, catch, out_of_fuel, perform, attempt, is_requested,
  instant_now, stamped, wrote,
}
use btc_infra_tools.Watchdog.Process.{sleep_until_shutdown}
use btc_infra_tools.Watchdog.Cycle.{run_watch_cycle}

-- `WatchState`: when the next cycle of the watch is due.
pub record WatchState : Type 0 where
  pub next_check : Option ℕ

abbrev pub WatchStates : Type 0
WatchStates = List (String × WatchState)

-- `states.entry(name).or_default()`
abbrev pub state_of : String → WatchStates → WatchState
state_of name states = unwrap_or (lookup name states) (record { next_check = none })

-- Whether the watch has to wait: `state.next_check.is_some_and(|due| due > now)`, and until when.
abbrev pub waits_until : ℕ → WatchState → Option ℕ
waits_until now state = elim state.next_check [
  | none ↦ none
  | some due ↦ if ltb now due then some due else none
]

-- `config.watch.iter().filter(|watch| watch.enabled)`
unfoldable pub enabled_watches : List WatchConfig → List WatchConfig
enabled_watches [] = []
enabled_watches (w ∷ ws) = let rest = enabled_watches ws in if w.enabled then w ∷ rest else rest

module _ (system : System) where
  unfoldable pub log_error : String → String → String → Act (Unit {0})
  log_error watch event detail = do
    stamp ← perform system.now_utc_rfc3339 stamped
    let line = format_log_line stamp watch event detail
    attempt (λ t. system.write_line t true line) (wrote true line)

  unfoldable pub log_shutdown : Act (Unit {0})
  log_shutdown = do
    stamp ← perform system.now_utc_rfc3339 stamped
    let line = "[" ⧺ stamp ⧺ "] watchdog.stop: reason=signal"
    attempt (λ t. system.write_line t false line) (wrote false line)

  module _ (json : Json) (fuel : ℕ) (config : WatchdogConfig) (once : Bool) where
    -- `match run_watch_cycle(..)`: the delay until the next cycle of the watch.
    unfoldable pub delay_of : EffectiveWatch → Act ℕ
    delay_of effective =
        if once
        then run_watch_cycle system json fuel effective
        else catch (run_watch_cycle system json fuel effective) (λ error. do
          log_error effective.config.name "watch.error"
              ("error=" ⧺ sanitize_log_detail error.message)
          return (max effective.interval effective.cooldown))

    -- `if shutdown.is_requested() { log_shutdown(..)?; return Ok(()); }` and what comes after it; a
    -- result `none` is the return.
    abbrev pub unless_requested : {A : Type 0} → Act (Option A) → Act (Option A)
    unless_requested rest = do
      requested ← is_requested system
      if requested then log_shutdown >> return none else rest

    -- From the `match` on the cycle on.
    unfoldable pub run_due :
        WatchConfig → EffectiveWatch → WatchStates → ℕ → Act (Option (WatchStates × ℕ))
    run_due watch effective states next_due = do
      next_delay ← delay_of effective
      unless_requested (do
        now ← instant_now system
        let due = now + next_delay
        return (some ((watch.name, record { next_check = some due }) ∷ states, min next_due due)))

    -- The body of the `for` loop, with the moment at which the pass began, the states and `next_due`.
    unfoldable pub visit_watch : ℕ → WatchConfig → WatchStates → ℕ → Act (Option (WatchStates × ℕ))
    visit_watch now watch states next_due = unless_requested (do
      effective ← lift (effective_watch config watch)
      elim (waits_until now (state_of watch.name states)) [
        | none ↦ run_due watch effective states next_due
        | some due ↦ return (some (states, min next_due due))
      ])

    -- The `for` loop.
    unfoldable pub visit_watches :
        ℕ → List WatchConfig → WatchStates → ℕ → Act (Option (WatchStates × ℕ))
    visit_watches now [] states next_due = return (some (states, next_due))
    visit_watches now (watch ∷ watches) states next_due = do
      passed ← visit_watch now watch states next_due
      elim passed [
        | none ↦ return none
        | some (next_states, next) ↦ visit_watches now watches next_states next
      ]

    -- From the computation of `sleep_for` on.
    unfoldable pub pause : WatchStates → ℕ → Act (Option WatchStates)
    pause states next_due = do
      again ← instant_now system
      stopped ← sleep_until_shutdown system fuel (min (next_due - again) (from_secs 1))
      if stopped then log_shutdown >> return none else return (some states)

    -- The body of the `loop`: `none` is the return from the function.
    unfoldable pub watch_pass : List WatchConfig → WatchStates → Act (Option WatchStates)
    watch_pass enabled states = unless_requested (do
      now ← instant_now system
      passed ← visit_watches now enabled states (now + from_secs default_interval_seconds)
      elim passed [
        | none ↦ return none
        | some (next_states, next_due) ↦ if once then return none else pause next_states next_due
      ])

    unfoldable pub watch_loop : ℕ → List WatchConfig → WatchStates → Act (Unit {0})
    watch_loop zero enabled states = out_of_fuel
    watch_loop (suc rounds) enabled states = do
      passed ← watch_pass enabled states
      elim passed [ none ↦ return tt | some next_states ↦ watch_loop rounds enabled next_states ]

    unfoldable pub run_watchdog : Act (Unit {0})
    run_watchdog =
        let enabled = enabled_watches config.watch in
        if is_empty enabled
        then fail (anyhow "watchdog config has no enabled watches")
        else watch_loop fuel enabled []

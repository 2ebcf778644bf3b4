-- ===== src/Watchdog/Stats.antt =====
-- The statistics that the watchdog takes from its log (crates/belter-watchdog/src/main.rs).
pub mod Report
pub mod Counts
mod Tests
use Prim.Native.Nat.{compare, Ordering}
use Prim.Native.String
use btc_infra_tools.Base.{
  ℕ, zero, suc, ◌+◌, ◌-◌, ◌/◌, ◌%◌, ◌^◌, ltb, min, max, Option, none, some, List, [], ◌∷◌, ◌++◌,
  reverse, String, Bool, true, false, not, ◌&&◌, ◌||◌, ◌==◌, eqb, code, is_some, is_empty, first,
  length, count_if, lookup, if◌then◌else◌,
}
use btc_infra_tools.Base.Int.{ℤ, pos, negsuc}
use btc_infra_tools.Watchdog.Json.{parse_bool}
use btc_infra_tools.Watchdog.Events.{Calendar, LogEvent, parse_log_event}

-- `values.iter().min()` and `max()`
unfoldable pub minimum : List ℕ → Option ℕ
minimum [] = none
minimum (n ∷ ns) = elim (minimum ns) [ none ↦ some n | some m ↦ some (min n m) ]

unfoldable pub maximum : List ℕ → Option ℕ
maximum [] = none
maximum (n ∷ ns) = elim (maximum ns) [ none ↦ some n | some m ↦ some (max n m) ]

unfoldable pub sum : List ℕ → ℕ
sum [] = 0
sum (n ∷ ns) = n + sum ns

-- A sum in `i64`, which wraps around at 2^64; a build with overflow checks panics instead.
unfoldable pub as_i64 : ℕ → ℤ
as_i64 n =
    let bits = n % 2 ^ 64 in if ltb bits (2 ^ 63) then pos bits else negsuc (2 ^ 64 - bits - 1)

abbrev negated : ℕ → ℤ
negated n = if eqb n 0 then pos 0 else negsuc (n - 1)

-- The division of `i64` by a positive number, which goes towards zero.
unfoldable pub div_i64 : ℤ → ℕ → ℤ
div_i64 (pos n) k = pos (n / k)
div_i64 (negsuc n) k = negated (suc n / k)

-- The seconds that are averaged come from `seconds_between`, so none of them is negative.
unfoldable pub average_seconds : List ℕ → Option ℤ
unfolding sum as_i64 div_i64
average_seconds values =
    if is_empty values then none else some (div_i64 (as_i64 (sum values)) (length values))

abbrev pub is_field : String → Option String → Bool
is_field expected none = false
is_field expected (some value) = value == expected

module _ (calendar : Calendar) where
  open calendar use {OffsetDateTime, format, leq, seconds}

  pub record OutageIncident : Type 0 where
    pub outage_at : OffsetDateTime
    pub recovery_started_at : Option OffsetDateTime
    pub recovery_done_at : Option OffsetDateTime
    pub recovery_exit_code : Option String
    pub recovery_timed_out : Option Bool
    pub recovered_at : Option OffsetDateTime

  pub record WatchStatsBuilder : Type 0 where
    pub incidents : List OutageIncident
    pub open_incident : Option OutageIncident
    pub last_known_state : Option String

  abbrev pub default_builder : WatchStatsBuilder
  default_builder = record { incidents = []; open_incident = none; last_known_state = none }

  abbrev pub outage : OffsetDateTime → OutageIncident
  outage timestamp = record {
    outage_at = timestamp;
    recovery_started_at = none;
    recovery_done_at = none;
    recovery_exit_code = none;
    recovery_timed_out = none;
    recovered_at = none;
  }

  -- `self.open_incident.take()` and a push of what it held.
  unfoldable pub push_open : WatchStatsBuilder → WatchStatsBuilder
  push_open b = elim b.open_incident [
    | none ↦ b
    | some incident ↦ record b { incidents = b.incidents ++ (incident ∷ []); open_incident = none }
  ]

  -- An `if let` on the open incident.
  unfoldable pub change_open :
      (OutageIncident → OutageIncident) → WatchStatsBuilder → WatchStatsBuilder
  change_open f b = elim b.open_incident [
    | none ↦ b
    | some incident ↦ record b { open_incident = some (f incident) }
  ]

  unfoldable pub tells_state : String → Bool
  tells_state event =
      event == "check.result"
      || event == "check.confirm_result"
      || event == "recovery.post_check"
      || event == "recovery.stabilization_check"
      || event == "recovery.outcome"

  unfoldable pub note_state : LogEvent calendar → WatchStatsBuilder → WatchStatsBuilder
  note_state event b = elim (lookup "state" event.fields) [
    | none ↦ b
    | some state ↦ if tells_state event.event then record b { last_known_state = some state } else b
  ]

  -- The guards of the arms of the `match`.
  unfoldable pub confirms_outage : LogEvent calendar → Bool
  confirms_outage event =
      event.event == "check.confirm_result" && is_field "unhealthy" (lookup "state" event.fields)

  unfoldable pub reports_recovery : LogEvent calendar → Bool
  reports_recovery event =
      (event.event == "recovery.post_check" && is_field "healthy" (lookup "state" event.fields))
      || (event.event == "recovery.outcome" && is_field "recovered" (lookup "outcome" event.fields))

  -- The `match` on the event; the two arms that end an incident do the same.
  unfoldable pub apply_event : LogEvent calendar → WatchStatsBuilder → WatchStatsBuilder
  apply_event event b =
      if confirms_outage event
      then record (push_open b) { open_incident = some (outage event.timestamp) }
      else if event.event == "recovery.start"
      then change_open (λ i. record i { recovery_started_at = some event.timestamp }) b
      else if event.event == "recovery.done"
      then change_open
          (λ i. record i {
            recovery_done_at = some event.timestamp;
            recovery_exit_code = lookup "exit_code" event.fields;
            recovery_timed_out = elim (lookup "timed_out" event.fields) [
              | none ↦ none
              | some value ↦ parse_bool value
            ];
          })
          b
      else if reports_recovery event
      then push_open (change_open (λ i. record i { recovered_at = some event.timestamp }) b)
      else b

  unfoldable pub apply : LogEvent calendar → WatchStatsBuilder → WatchStatsBuilder
  apply event b = apply_event event (note_state event b)

  -- `sort_by_key`, which keeps the order of equal keys.
  unfoldable pub insert_by_outage : OutageIncident → List OutageIncident → List OutageIncident
  insert_by_outage x [] = x ∷ []
  insert_by_outage x (y ∷ ys) =
      if leq x.outage_at y.outage_at then x ∷ y ∷ ys else y ∷ insert_by_outage x ys

  unfoldable pub sort_by_outage : List OutageIncident → List OutageIncident
  sort_by_outage [] = []
  sort_by_outage (x ∷ xs) = insert_by_outage x (sort_by_outage xs)

  abbrev pub is_recovered : OutageIncident → Bool
  is_recovered i = is_some i.recovered_at

  abbrev pub is_attempted : OutageIncident → Bool
  is_attempted i = is_some i.recovery_started_at

  abbrev is_true : Option Bool → Bool
  is_true none = false
  is_true (some b) = b

  abbrev is_failure_code : Option String → Bool
  is_failure_code none = false
  is_failure_code (some text) = not (text == "0")

  abbrev pub is_command_failure : OutageIncident → Bool
  is_command_failure i = is_true i.recovery_timed_out || is_failure_code i.recovery_exit_code

  -- `filter_map`
  abbrev push_some : Option ℕ → List ℕ → List ℕ
  push_some none ns = ns
  push_some (some n) ns = n ∷ ns

  unfoldable pub recovery_seconds : List OutageIncident → List ℕ
  recovery_seconds [] = []
  recovery_seconds (i ∷ is) =
      push_some (elim i.recovered_at [ none ↦ none | some at ↦ seconds i.outage_at at ])
        (recovery_seconds is)

  -- Over `windows(2)`.
  unfoldable pub outage_interval_seconds : List OutageIncident → List ℕ
  outage_interval_seconds [] = []
  outage_interval_seconds (i ∷ []) = []
  outage_interval_seconds (i ∷ j ∷ is) =
      push_some (seconds i.outage_at j.outage_at) (outage_interval_seconds (j ∷ is))

  pub record WatchStatsReport : Type 0 where
    pub watch : String
    pub confirmed_outages : ℕ
    pub recovered : ℕ
    pub unrecovered : ℕ
    pub recovery_attempts : ℕ
    pub recovery_command_failures : ℕ
    pub average_recovery_seconds : Option ℤ
    pub min_recovery_seconds : Option ℕ
    pub max_recovery_seconds : Option ℕ
    pub average_seconds_between_outages : Option ℤ
    pub min_seconds_between_outages : Option ℕ
    pub max_seconds_between_outages : Option ℕ
    pub last_outage : Option String
    pub last_recovery : Option String
    pub last_known_state : Option String

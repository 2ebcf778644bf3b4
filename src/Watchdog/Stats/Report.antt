-- ===== src/Watchdog/Stats/Report.antt =====
-- The report of one watch and of a whole log: `finish` and `build_stats_report`
-- (crates/belter-watchdog/src/main.rs). The path of the log file, with the home
-- directory written out, and its lines are arguments.
use Prim.Native.Nat.{compare, Ordering}
use btc_infra_tools.Base.{
  ℕ, ◌+◌, ◌-◌, Option, none, some, List, [], ◌∷◌, String, Bool, true, false, not, ◌==◌, code,
  length, count_if, if◌then◌else◌,
}
use btc_infra_tools.Watchdog.Events.{Calendar, LogEvent, parse_log_event}
use btc_infra_tools.Watchdog.Stats.{
  minimum, maximum, average_seconds, OutageIncident, WatchStatsBuilder, default_builder, push_open,
  apply, sort_by_outage, is_recovered, is_attempted, is_command_failure, recovery_seconds,
  outage_interval_seconds, WatchStatsReport,
}

-- `Ord` of `String`: the bytes of UTF-8 stand in the order of the characters.
unfoldable pub text_lt : String → String → Bool
text_lt s String.[] = false
text_lt String.[] (String.◌∷◌ d t) = true
text_lt (String.◌∷◌ c s) (String.◌∷◌ d t) =
    let rest = text_lt s t in
    elim (compare (code c) (code d)) [
      | Ordering.lt ↦ true
      | Ordering.eq ↦ rest
      | Ordering.gt ↦ false
    ]

module _ (calendar : Calendar) where
  open calendar use {OffsetDateTime, format, leq}

  -- `last()`
  abbrev last_outage_of : List (OutageIncident calendar) → Option String
  last_outage_of [] = none
  last_outage_of (i ∷ []) = some (format i.outage_at)
  last_outage_of (i ∷ j ∷ is) = last_outage_of (j ∷ is)

  -- `iter().rev().find_map(..)`
  abbrev last_recovery_of : List (OutageIncident calendar) → Option String
  last_recovery_of [] = none
  last_recovery_of (i ∷ is) = elim (last_recovery_of is) [
    | some text ↦ some text
    | none ↦ elim i.recovered_at [ none ↦ none | some at ↦ some (format at) ]
  ]

  unfoldable pub report_of :
      String → Option String → List (OutageIncident calendar) → WatchStatsReport calendar
  report_of watch state incidents =
      let confirmed = length incidents in
      let healed = count_if (is_recovered calendar) incidents in
      let repairs = recovery_seconds calendar incidents in
      let pauses = outage_interval_seconds calendar incidents in
      record {
        watch = watch;
        confirmed_outages = confirmed;
        recovered = healed;
        unrecovered = confirmed - healed;
        recovery_attempts = count_if (is_attempted calendar) incidents;
        recovery_command_failures = count_if (is_command_failure calendar) incidents;
        average_recovery_seconds = average_seconds repairs;
        min_recovery_seconds = minimum repairs;
        max_recovery_seconds = maximum repairs;
        average_seconds_between_outages = average_seconds pauses;
        min_seconds_between_outages = minimum pauses;
        max_seconds_between_outages = maximum pauses;
        last_outage = last_outage_of incidents;
        last_recovery = last_recovery_of incidents;
        last_known_state = state;
      }

  unfoldable pub finish : String → WatchStatsBuilder calendar → WatchStatsReport calendar
  finish watch builder =
      let closed = push_open calendar builder in
      report_of watch closed.last_known_state (sort_by_outage calendar closed.incidents)

  pub record StatsTotals : Type 0 where
    pub confirmed_outages : ℕ
    pub recovered : ℕ
    pub unrecovered : ℕ
    pub recovery_attempts : ℕ
    pub recovery_command_failures : ℕ

  pub record StatsReport : Type 0 where
    pub log_path : String
    pub log_started_at : Option String
    pub log_ended_at : Option String
    pub watch_filter : Option String
    pub total : StatsTotals
    pub watches : List (WatchStatsReport calendar)

  -- `builders.entry(watch).or_default().apply(event)`, in a map that is sorted by its keys.
  unfoldable pub apply_at :
      LogEvent calendar
      → List (String × WatchStatsBuilder calendar)
      → List (String × WatchStatsBuilder calendar)
  apply_at event [] = (event.watch, apply calendar event (default_builder calendar)) ∷ []
  apply_at event ((watch, builder) ∷ rest) =
      if event.watch == watch
      then (watch, apply calendar event builder) ∷ rest
      else if text_lt event.watch watch
      then (event.watch, apply calendar event (default_builder calendar)) ∷ (watch, builder) ∷ rest
      else (watch, builder) ∷ apply_at event rest

  -- What the loop over the lines keeps.
  pub record Scan : Type 0 where
    pub builders : List (String × WatchStatsBuilder calendar)
    pub started_at : Option OffsetDateTime
    pub ended_at : Option OffsetDateTime

  abbrev pub is_filtered_out : Option String → LogEvent calendar → Bool
  is_filtered_out none event = false
  is_filtered_out (some watch) event = not (event.watch == watch)

  -- `map_or(time, |other| other.min(time))` and `max`
  abbrev earlier : Option OffsetDateTime → OffsetDateTime → OffsetDateTime
  earlier none time = time
  earlier (some other) time = if leq other time then other else time

  abbrev later : Option OffsetDateTime → OffsetDateTime → OffsetDateTime
  later none time = time
  later (some other) time = if leq other time then time else other

  unfoldable pub scan_event : Option String → LogEvent calendar → Scan → Scan
  scan_event filter event scan = record {
    builders = if is_filtered_out filter event then scan.builders else apply_at event scan.builders;
    started_at = some (earlier scan.started_at event.timestamp);
    ended_at = some (later scan.ended_at event.timestamp);
  }

  unfoldable pub scan_lines : Option String → List String → Scan → Scan
  scan_lines filter [] scan = scan
  scan_lines filter (line ∷ lines) scan = elim (parse_log_event calendar line) [
    | none ↦ scan_lines filter lines scan
    | some event ↦ scan_lines filter lines (scan_event filter event scan)
  ]

  unfoldable pub add_report : WatchStatsReport calendar → StatsTotals → StatsTotals
  add_report report total = record {
    confirmed_outages = total.confirmed_outages + report.confirmed_outages;
    recovered = total.recovered + report.recovered;
    unrecovered = total.unrecovered + report.unrecovered;
    recovery_attempts = total.recovery_attempts + report.recovery_attempts;
    recovery_command_failures = total.recovery_command_failures + report.recovery_command_failures;
  }

  unfoldable pub finish_all :
      List (String × WatchStatsBuilder calendar)
      → StatsTotals
      → StatsTotals × List (WatchStatsReport calendar)
  finish_all [] total = (total, [])
  finish_all ((watch, builder) ∷ rest) total =
      let report = finish watch builder in
      let (all, reports) = finish_all rest (add_report report total) in (all, report ∷ reports)

  abbrev pub empty_totals : StatsTotals
  empty_totals = record {
    confirmed_outages = 0;
    recovered = 0;
    unrecovered = 0;
    recovery_attempts = 0;
    recovery_command_failures = 0;
  }

  abbrev pub empty_scan : Scan
  empty_scan = record { builders = []; started_at = none; ended_at = none }

  abbrev show_time : Option OffsetDateTime → Option String
  show_time none = none
  show_time (some time) = some (format time)

  unfoldable pub build_stats_report : String → List String → Option String → StatsReport
  build_stats_report log_path lines filter =
      let scan = scan_lines filter lines empty_scan in
      let (total, watches) = finish_all scan.builders empty_totals in
      record {
        log_path = log_path;
        log_started_at = show_time scan.started_at;
        log_ended_at = show_time scan.ended_at;
        watch_filter = filter;
        total = total;
        watches = watches;
      }

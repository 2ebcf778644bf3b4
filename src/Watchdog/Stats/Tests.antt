-- ===== src/Watchdog/Stats/Tests.antt =====
-- The theorems about the statistics, at a log.
use btc_infra_tools.Base.{
  ◌+◌, ◌-◌, if◌then◌else◌, ◌≡◌, ◌^◌, refl, none, some, List, [], ◌∷◌, String, count_if, leb,
}
use btc_infra_tools.Base.Text.{chars_count}
use btc_infra_tools.Watchdog.Events.{Calendar, parse_log_event}
use btc_infra_tools.Base.Int.{pos, negsuc}
use btc_infra_tools.Watchdog.Stats.{average_seconds}
use btc_infra_tools.Watchdog.Stats.Report.{build_stats_report}
use btc_infra_tools.Watchdog.Stats.Counts.{counts, build_stats_report-total}

-- A time is a tally of strokes.
abbrev strokes : Calendar
strokes = record {
  OffsetDateTime = String;
  parse = λ s. some s;
  format = λ s. s;
  leq = λ s t. leb (chars_count s) (chars_count t);
  seconds = λ s t.
      if leb (chars_count s) (chars_count t) then some (chars_count t - chars_count s) else none;
}

abbrev lines : List String
lines =
    "[I] check.confirm_result: watch=mempool state=unhealthy" ∷ "[II] recovery.start: watch=mempool"
    ∷ "[IIII] recovery.post_check: watch=mempool state=healthy" ∷ "no log line"
    ∷ "[IIIII] check.confirm_result: watch=bitcoind state=unhealthy" ∷ []

build_stats_report-total_example :
    ((build_stats_report strokes "watchdog.log" lines none).total.confirmed_outages
      ≡ count_if (λ line. counts strokes none (parse_log_event strokes line)) lines)
    × ((build_stats_report strokes "watchdog.log" lines none).total.recovered
          + (build_stats_report strokes "watchdog.log" lines none).total.unrecovered
        ≡ (build_stats_report strokes "watchdog.log" lines none).total.confirmed_outages)
build_stats_report-total_example = build_stats_report-total strokes "watchdog.log" lines none

-- The average goes towards zero, and a sum of 2^63 seconds wraps around to a negative one.
averages : average_seconds (3 ∷ 8 ∷ []) ≡ some (pos 5)
unfolding average_seconds
averages = refl

wraps : average_seconds (2 ^ 62 ∷ 2 ^ 62 ∷ []) ≡ some (negsuc (2 ^ 62 - 1))
unfolding average_seconds
wraps = refl

-- ===== src/Watchdog/Events/Tests.antt =====
-- The round trip of a log line, at a line of a cycle (crates/belter-watchdog/src/main.rs).
use mathlib.Core.List.{List}
use btc_infra_tools.Base.{◌≡◌, refl, some, String, ◌++◌, true}
use btc_infra_tools.Base.Text.{is_whitespace, split_once, strip_prefix}
use btc_infra_tools.Watchdog.Log.{format_log_line}
use btc_infra_tools.Watchdog.Events.{
  Calendar, insert_fields, split_whitespace, words, push_word, parse_log_event,
}
use btc_infra_tools.Watchdog.Events.RoundTrip.{fields_of, parse_log_event-format_log_line}

-- A time is its text.
abbrev texts : Calendar
texts = record {
  OffsetDateTime = String;
  parse = λ s. some s;
  format = λ s. s;
  leq = λ s t. true;
  seconds = λ s t. some 0;
}

parse_log_event-format_log_line_example :
    parse_log_event texts (format_log_line "10:00" "mempool" "check.result" "state=healthy")
    ≡ some (record {
      timestamp = "10:00";
      event = "check.result";
      watch = "mempool";
      fields = fields_of "state=healthy" ++ List.◌∷◌ ("watch", "mempool") List.[];
    })
unfolding is_whitespace insert_fields split_whitespace words push_word split_once strip_prefix
parse_log_event-format_log_line_example =
    parse_log_event-format_log_line texts "10:00" "mempool" "check.result" "state=healthy" "10:00"
      refl (refl, (refl, (refl, (refl, (refl, tt)))))
      (
        refl,
        (refl, (refl, (refl, (refl, (refl, (refl, (refl, (refl, (refl, (refl, (refl, tt))))))))))),
      )
      (refl, (refl, (refl, (refl, (refl, (refl, (refl, tt))))))) refl

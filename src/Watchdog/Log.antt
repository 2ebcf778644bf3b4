-- ===== src/Watchdog/Log.antt =====
-- The watchdog's log lines (crates/belter-watchdog/src/main.rs).
use Prim.Native.String.{[], ◌∷◌}
use btc_infra_tools.Base.{
  Option, none, some, String, code, Bool, true, false, ◌||◌, ◌==◌, eqb, if◌then◌else◌,
}
use btc_infra_tools.Base.Int.{ℤ, show_ℤ}
use btc_infra_tools.Base.Text.{◌⧺◌}
use btc_infra_tools.Watchdog.Health.{HealthState, healthy, syncing, unhealthy}

abbrev pub health_label : HealthState → String
health_label healthy = "state=healthy"
health_label syncing = "state=syncing"
health_label unhealthy = "state=unhealthy"

-- `Display` of `bool`.
abbrev pub show_bool : Bool → String
show_bool true = "true"
show_bool false = "false"

unfoldable pub display_code : Option ℤ → String
unfolding show_ℤ
display_code none = "signal"
display_code (some k) = show_ℤ k

-- `replace(['\r', '\n'], " ")`
unfoldable pub sanitize_log_detail : String → String
sanitize_log_detail [] = ""
sanitize_log_detail (c ∷ s) =
    let rest = sanitize_log_detail s in
    if eqb (code c) 13 || eqb (code c) 10 then " " ⧺ rest else c ∷ rest

-- The first argument is `clock.now_utc_rfc3339()`.
unfoldable pub format_log_line : String → String → String → String → String
format_log_line timestamp watch event detail =
    if detail == ""
    then "[" ⧺ timestamp ⧺ "] " ⧺ event ⧺ ": watch=" ⧺ watch
    else "[" ⧺ timestamp ⧺ "] " ⧺ event ⧺ ": watch=" ⧺ watch ⧺ " " ⧺ detail

-- ===== src/Watchdog/Config.antt =====
-- The watchdog's configuration, its validation, and the settings of one watch
-- (crates/belter-watchdog/src/main.rs). Durations are in nanoseconds.
pub mod Valid
use btc_infra_tools.Base.{
  ℕ, ◌+◌, ◌*◌, ◌^◌, Option, none, some, List, [], ◌∷◌, String, Bool, true, false, not, ◌&&◌, ◌||◌,
  ◌==◌, eqb, is_some, is_empty, unwrap_or, or_else, if◌then◌else◌,
}
use btc_infra_tools.Base.Int.{ℤ}
use btc_infra_tools.Base.Text.{◌⧺◌, trim, show_ℕ}
use btc_infra_tools.Base.Result.{Result, ok, err, bail, ◌>>=◌, ◌>>◌}

pub record LoggingConfig : Type 0 where
  pub stdout_path : Option String
  pub stderr_path : Option String

pub record WatchDefaults : Type 0 where
  pub interval_seconds : Option ℕ
  pub confirm_after_seconds : Option ℕ
  pub cooldown_seconds : Option ℕ
  pub timeout_seconds : Option ℕ
  pub recovery_stabilization_seconds : Option ℕ
  pub recovery_poll_seconds : Option ℕ
  pub shell : Option (List String)

pub record WatchConfig : Type 0 where
  pub name : String
  pub diagnose : String
  pub recovery : String
  pub allow_command : Option String
  pub enabled : Bool
  pub interval_seconds : Option ℕ
  pub confirm_after_seconds : Option ℕ
  pub cooldown_seconds : Option ℕ
  pub timeout_seconds : Option ℕ
  pub recovery_stabilization_seconds : Option ℕ
  pub recovery_poll_seconds : Option ℕ
  pub healthy_json_path : Option String
  pub healthy_equals : Option String
  pub transitional_json_values : List String
  pub healthy_exit_code : Option ℤ
  pub shell : Option (List String)

pub record WatchdogConfig : Type 0 where
  pub version : ℕ
  pub logging : LoggingConfig
  pub defaults : WatchDefaults
  pub watch : List WatchConfig

-- `text.trim().is_empty()`
unfoldable pub is_blank : String → Bool
is_blank text = trim text == ""

-- An optional text that is set and blank.
abbrev pub is_set_blank : Option String → Bool
is_set_blank none = false
is_set_blank (some text) = is_blank text

-- `if condition { bail!(text) }`
abbrev pub refuse_if : Bool → String → Result (Unit {0})
refuse_if true text = bail text
refuse_if false text = ok tt

-- The body of the `for` loop.
unfoldable pub validate_watch : WatchConfig → Result (Unit {0})
validate_watch w = do
  refuse_if (is_blank w.name) "watch entry has empty name"
  refuse_if (is_blank w.diagnose) ("watch `" ⧺ w.name ⧺ "` has empty diagnose command")
  refuse_if (is_set_blank w.allow_command) ("watch `" ⧺ w.name ⧺ "` has empty allow_command")
  refuse_if (is_blank w.recovery) ("watch `" ⧺ w.name ⧺ "` has empty recovery command")
  refuse_if (not (is_some w.healthy_json_path) && not (is_some w.healthy_exit_code))
      ("watch `" ⧺ w.name ⧺ "` must set healthy_json_path or healthy_exit_code")
  refuse_if (is_some w.healthy_json_path && not (is_some w.healthy_equals))
      ("watch `" ⧺ w.name ⧺ "` must set healthy_equals when healthy_json_path is used")
  refuse_if (not (is_empty w.transitional_json_values) && not (is_some w.healthy_json_path))
      ("watch `" ⧺ w.name ⧺ "` must set healthy_json_path when transitional_json_values is used")

unfoldable pub validate_watches : List WatchConfig → Result (Unit {0})
validate_watches [] = ok tt
validate_watches (w ∷ ws) = do validate_watch w; validate_watches ws

unfoldable pub validate_config : WatchdogConfig → Result (Unit {0})
validate_config config = do
  refuse_if (not (eqb config.version 1))
      ("unsupported watchdog config version " ⧺ show_ℕ config.version ⧺ "; expected 1")
  refuse_if (is_empty config.watch) "watchdog config must define at least one [[watch]] entry"
  refuse_if (is_set_blank config.logging.stdout_path) "logging.stdout_path cannot be empty when set"
  refuse_if (is_set_blank config.logging.stderr_path) "logging.stderr_path cannot be empty when set"
  validate_watches config.watch

pub record EffectiveWatch : Type 0 where
  pub config : WatchConfig
  pub interval : ℕ
  pub confirm_after : ℕ
  pub cooldown : ℕ
  pub timeout : ℕ
  pub recovery_stabilization : ℕ
  pub recovery_poll : ℕ
  pub shell : List String

abbrev pub default_interval_seconds : ℕ
default_interval_seconds = 600

abbrev pub default_confirm_after_seconds : ℕ
default_confirm_after_seconds = 30

abbrev pub default_cooldown_seconds : ℕ
default_cooldown_seconds = 600

abbrev pub default_timeout_seconds : ℕ
default_timeout_seconds = 120

abbrev pub default_recovery_stabilization_seconds : ℕ
default_recovery_stabilization_seconds = 120

abbrev pub default_recovery_poll_seconds : ℕ
default_recovery_poll_seconds = 5

-- `Duration::from_secs`
abbrev pub from_secs : ℕ → ℕ
from_secs s = s * 1000000000

abbrev pub default_shell : List String
default_shell = "zsh" ∷ "-lc" ∷ []

-- A setting of the watch, else of the defaults, else the constant.
abbrev pub setting {ℓ} : {A : Type ℓ} → Option A → Option A → A → A
setting own shared constant = unwrap_or (or_else own shared) constant

unfoldable pub effective_watch : WatchdogConfig → WatchConfig → Result EffectiveWatch
effective_watch config w =
    let d = config.defaults in
    let shell = setting w.shell d.shell default_shell in
    if is_empty shell
    then bail ("watch `" ⧺ w.name ⧺ "` has empty shell")
    else ok (record {
      config = w;
      interval = from_secs (setting w.interval_seconds d.interval_seconds default_interval_seconds);
      confirm_after =
          from_secs
            (setting w.confirm_after_seconds d.confirm_after_seconds default_confirm_after_seconds);
      cooldown = from_secs (setting w.cooldown_seconds d.cooldown_seconds default_cooldown_seconds);
      timeout = from_secs (setting w.timeout_seconds d.timeout_seconds default_timeout_seconds);
      recovery_stabilization = from_secs (
          setting w.recovery_stabilization_seconds d.recovery_stabilization_seconds
            default_recovery_stabilization_seconds);
      recovery_poll =
          from_secs
            (setting w.recovery_poll_seconds d.recovery_poll_seconds default_recovery_poll_seconds);
      shell = shell;
    })

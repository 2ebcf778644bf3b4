-- ===== src/Watchdog/Config/Valid.antt =====
-- What a valid configuration is, stated without the order of the checks, and that `validate_config`
-- (crates/belter-watchdog/src/main.rs) accepts exactly these.
use btc_infra_tools.Base.{◌≡◌, ◌≢◌, ◌↔◌, refl, List, [], ◌∷◌, true, false, arith, All, is_some, ◌⊎◌}
use btc_infra_tools.Base.Result.{ok}
use btc_infra_tools.Watchdog.Config.{
  WatchConfig, WatchdogConfig, is_blank, is_set_blank, validate_watch, validate_watches,
  validate_config,
}

pub record IsValidWatch (w : WatchConfig) : Type 0 where
  pub named : is_blank w.name ≡ false
  pub diagnoses : is_blank w.diagnose ≡ false
  pub admits : is_set_blank w.allow_command ≡ false
  pub recovers : is_blank w.recovery ≡ false
  pub judged : (is_some w.healthy_json_path ≡ true) ⊎ (is_some w.healthy_exit_code ≡ true)
  pub compared : is_some w.healthy_json_path ≡ true → is_some w.healthy_equals ≡ true
  pub transitional : w.transitional_json_values ≢ [] → is_some w.healthy_json_path ≡ true

pub record IsValid (config : WatchdogConfig) : Type 0 where
  pub version : config.version ≡ 1
  pub some_watch : config.watch ≢ []
  pub stdout : is_set_blank config.logging.stdout_path ≡ false
  pub stderr : is_set_blank config.logging.stderr_path ≡ false
  pub watches : All IsValidWatch config.watch

validate_watch-ok : (w : WatchConfig) → validate_watch w ≡ ok tt → IsValidWatch w
unfolding validate_watch
validate_watch-ok w h = ground arith

IsValidWatch-ok : (w : WatchConfig) → IsValidWatch w → validate_watch w ≡ ok tt
unfolding validate_watch
IsValidWatch-ok w h = ground arith

validate_watches-ok : (ws : List WatchConfig) → validate_watches ws ≡ ok tt → All IsValidWatch ws
unfolding validate_watches
validate_watches-ok [] h = tt
validate_watches-ok (w ∷ ws) h =
    (validate_watch-ok w (ground arith), validate_watches-ok ws (ground arith))

All-validate_watches : (ws : List WatchConfig) → All IsValidWatch ws → validate_watches ws ≡ ok tt
unfolding validate_watches
All-validate_watches [] h = refl
All-validate_watches (w ∷ ws) h = ground (arith, IsValidWatch-ok w h.0, All-validate_watches ws h.1)

-- A configuration passes exactly if its version is 1, it has a watch, no log path is set to blanks,
-- and each watch has a name, a diagnosis and a recovery that are not blank, no blank admission
-- command, a JSON path or an exit code to judge by, a text to compare with where it has a path, and a
-- path where it has transitional values.
pub validate_config-IsValid :
    (config : WatchdogConfig) → (validate_config config ≡ ok tt) ↔ IsValid config
unfolding validate_config
validate_config-IsValid config = (
  λ h. record {
    version = ground arith;
    some_watch = ground arith;
    stdout = ground arith;
    stderr = ground arith;
    watches = validate_watches-ok config.watch (ground arith);
  },
  λ v. ground (arith, All-validate_watches config.watch v.watches),
)

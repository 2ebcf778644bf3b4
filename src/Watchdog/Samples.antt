-- ===== src/Watchdog/Samples.antt =====
-- Inputs for the tests of the watchdog: the watch of the template that `init_config` writes
-- (crates/belter-watchdog/src/main.rs), and JSON documents that are texts.
use btc_infra_tools.Base.{length, false, none, some, [], ◌∷◌, String, true, ◌==◌}
use btc_infra_tools.Base.Int.{ℤ, pos}
use btc_infra_tools.Watchdog.Config.{
  from_secs, default_shell, EffectiveWatch, WatchDefaults, WatchConfig, WatchdogConfig,
}
use btc_infra_tools.Base.Result.{ok}
use btc_infra_tools.Watchdog.World.{admission, diagnosis, repair, spawned, Trace, System}
use btc_infra_tools.Watchdog.Json.{Json, text}

abbrev pub mempool_watch : WatchConfig
mempool_watch = record {
  name = "mempool";
  diagnose = "belter --json service status mempool";
  recovery = "belter service bring-up mempool";
  allow_command = some "workload-handoff allow";
  enabled = true;
  interval_seconds = none;
  confirm_after_seconds = none;
  cooldown_seconds = none;
  timeout_seconds = none;
  recovery_stabilization_seconds = none;
  recovery_poll_seconds = none;
  healthy_json_path = some ".data.state";
  healthy_equals = some "running";
  transitional_json_values = "syncing" ∷ [];
  healthy_exit_code = some (pos 0);
  shell = none;
}

abbrev pub no_defaults : WatchDefaults
no_defaults = record {
  interval_seconds = none;
  confirm_after_seconds = none;
  cooldown_seconds = none;
  timeout_seconds = none;
  recovery_stabilization_seconds = none;
  recovery_poll_seconds = none;
  shell = none;
}

abbrev pub sample_config : WatchdogConfig
sample_config = record {
  version = 1;
  logging = record { stdout_path = some "watchdog.out.log"; stderr_path = none };
  defaults = no_defaults;
  watch = mempool_watch ∷ [];
}

-- A document is a text, and each of its members is the text itself.
abbrev pub text_json : Json
text_json = record {
  Value = String;
  from_str = λ s. some s;
  get = λ value key. some value;
  view = λ value. text value;
  value_eq = λ a b. a == b;
}

-- With a second between two events, no signal, commands that end at once, and only the admission
-- with the exit code 0.
abbrev last_code : Trace → ℤ
last_code [] = pos 1
last_code (spawned admission command r ∷ t) = pos 0
last_code (spawned diagnosis command r ∷ t) = pos 1
last_code (spawned repair command r ∷ t) = pos 1
last_code (_ ∷ t) = last_code t

abbrev pub failing_system : System
failing_system = record {
  signal_came = λ t. false;
  now = λ t. from_secs (length t);
  spawn = λ t shell command. ok 7;
  try_wait = λ t child. ok true;
  wait_with_output =
      λ t child. some (ok (record { code = some (last_code t); stdout = ""; stderr = "" }));
  killpg = λ t child signal. none;
  os_error = λ code. "";
  now_utc_rfc3339 = λ t. "2026-01-01T00:00:00Z";
  write_line = λ t to_stderr line. ok tt;
}

abbrev pub mempool_effective : EffectiveWatch
mempool_effective = record {
  config = mempool_watch;
  interval = from_secs 600;
  confirm_after = from_secs 30;
  cooldown = from_secs 600;
  timeout = from_secs 120;
  recovery_stabilization = from_secs 120;
  recovery_poll = from_secs 5;
  shell = default_shell;
}

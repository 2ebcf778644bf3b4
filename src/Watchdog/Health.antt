-- ===== src/Watchdog/Health.antt =====
-- From the output of a diagnosis to a health state: `evaluate_health`
-- (crates/belter-watchdog/src/main.rs).
pub mod Judged
use btc_infra_tools.Base.{
  Option, none, some, List, [], ◌∷◌, String, Bool, true, false, not, ◌||◌, unwrap_or, if◌then◌else◌,
}
use btc_infra_tools.Base.Int.{ℤ, eq_ℤ}
use btc_infra_tools.Watchdog.Config.{WatchConfig}
use btc_infra_tools.Watchdog.Json.{Json, json_path_value, json_value_equals}

pub record CommandOutput : Type 0 where
  pub code : Option ℤ
  pub stdout : String
  pub stderr : String
  pub timed_out : Bool

pub data HealthState : Type 0 where
  healthy syncing unhealthy : HealthState

-- `output.code == Some(k)`
abbrev pub has_code : Option ℤ → ℤ → Bool
has_code none k = false
has_code (some c) k = eq_ℤ c k

-- An expected exit code that the output does not have.
abbrev pub misses_code : Option ℤ → Option ℤ → Bool
misses_code none code = false
misses_code (some k) code = not (has_code code k)

module _ (json : Json) where
  open json use {Value, from_str}

  -- `iter().any(|value| json_value_equals(actual, value))`
  unfoldable pub equals_any : Value → List String → Bool
  equals_any actual [] = false
  equals_any actual (v ∷ vs) = json_value_equals json actual v || equals_any actual vs

  unfoldable pub judge_value : WatchConfig → Value → HealthState
  judge_value watch actual =
      if json_value_equals json actual (unwrap_or watch.healthy_equals "")
      then healthy
      else if equals_any actual watch.transitional_json_values
      then syncing
      else unhealthy

  -- The value at the path of the watch, where the output is JSON that has one.
  unfoldable pub value_at : String → String → Option Value
  value_at stdout path = elim (from_str stdout) [
    | none ↦ none
    | some parsed ↦ json_path_value json parsed path
  ]

  unfoldable pub evaluate_health : WatchConfig → CommandOutput → HealthState
  unfolding value_at
  evaluate_health watch output =
      if output.timed_out
      then unhealthy
      else if misses_code watch.healthy_exit_code output.code
      then unhealthy
      else elim watch.healthy_json_path [
        | none ↦ healthy
        | some path ↦ elim (value_at output.stdout path) [
          | none ↦ unhealthy
          | some actual ↦ judge_value watch actual
        ]
      ]

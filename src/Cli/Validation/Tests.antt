-- ===== src/Cli/Validation/Tests.antt =====
-- The theorem about the validation of a configuration, at a file with two of the three required
-- services, to which the third is added (crates/infractl-cli/src/commands/config.rs).
use btc_infra_tools.Base.{◌≡◌, refl, none, some, List, [], ◌∷◌, String, true, ◌==◌, if◌then◌else◌}
use btc_infra_tools.Base.Result.{Result, ok, err}
use btc_infra_tools.Core.Env.{EnvResolver, fixed_resolver, expand_placeholders}
use btc_infra_tools.Core.Config.{ServiceConfig, BelterConfig}
use btc_infra_tools.Cli.Validation.{
  validate_config_file, completed, append_missing_required_services, missing_among, with_blocks,
  blocks_of, example_service_block, check_config, check_required, check_services, check_service,
  check_field, resolve_placeholder_for_field,
}
use btc_infra_tools.Cli.Validation.Plannable.{IsPlannable, validate_config_file-IsPlannable}

abbrev nothing_set : EnvResolver
nothing_set = fixed_resolver []

abbrev unit_service : ServiceConfig
unit_service = record {
  manager = "launchd";
  unit = some "system/unit";
  compose_file = none;
  compose_override = none;
  project = none;
  env_file = none;
  machine = none;
  depends_on = none;
}

abbrev short_config : BelterConfig
short_config = record {
  service = some (("bitcoind", unit_service) ∷ ("stratum", unit_service) ∷ []);
}

abbrev whole_config : BelterConfig
whole_config = record {
  service =
      some
        (("bitcoind", unit_service) ∷ ("stratum", unit_service) ∷ ("mempool", unit_service) ∷ []);
}

-- A parser that knows two texts.
abbrev toml : String → Result BelterConfig
toml raw = if raw == "short" then ok short_config else ok whole_config

abbrev read_text : Result String
read_text = ok "short"

abbrev message : Result String → String
message (ok text) = text
message (err e) = e.message

abbrev validated : Result String
validated = validate_config_file "belter.toml" read_text toml (λ text. ok tt) nothing_set true

validates : validated ≡ ok (message validated)
unfolding validate_config_file completed append_missing_required_services missing_among with_blocks
    blocks_of example_service_block check_config check_required check_services check_service
    check_field resolve_placeholder_for_field expand_placeholders
validates = refl

validate_config_file-IsPlannable_example :
    (raw : String) × (config : BelterConfig) × (added : List String) × (whole : BelterConfig)
    × (read_text ≡ ok raw)
    × (toml raw ≡ ok config)
    × (completed "belter.toml" read_text toml (λ text. ok tt) true raw config ≡ ok (added, whole))
    × IsPlannable nothing_set whole
validate_config_file-IsPlannable_example =
    validate_config_file-IsPlannable "belter.toml" read_text toml (λ text. ok tt) nothing_set true
      (message validated) validates

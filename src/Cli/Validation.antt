-- ===== src/Cli/Validation.antt =====
-- The validation of the configuration of the services
-- (crates/infractl-cli/src/commands/config.rs). The file and the crate toml are parameters: what reading
-- the file gave, the parser, and what writing a text into the file gives.
mod Tests
pub mod Passed
pub mod Plannable
use btc_infra_tools.Base.{
  ℕ, Option, none, some, List, [], ◌∷◌, String, Bool, true, false, not, is_some, is_empty, length,
  lookup, ◌==◌, if◌then◌else◌,
}
use btc_infra_tools.Base.Text.{◌⧺◌, show_ℕ, split_once, ends_with_newline}
use btc_infra_tools.Base.Result.{Error, Result, ok, err, bail, ok_or, context, ◌>>=◌, ◌>>◌}
use btc_infra_tools.Core.Env.{EnvResolver, expand_placeholders}
use btc_infra_tools.Core.Config.{ServiceConfig, BelterConfig}
use btc_infra_tools.Cli.Execution.{join}

abbrev pub required_services : List String
required_services = "bitcoind" ∷ "stratum" ∷ "mempool" ∷ []

unfoldable pub example_service_block : String → String
example_service_block name =
    if name == "bitcoind"
    then "[service.bitcoind]\nmanager = \"launchd\"\nunit = \"${BITCOIND_LAUNCHD_UNIT}\""
    else if name == "stratum"
    then "[service.stratum]\nmanager = \"launchd\"\nunit = \"${STRATUM_LAUNCHD_UNIT}\""
    else if name == "mempool"
    then "[service.mempool]\nmanager = \"podman_compose\"\ncompose_file = \"${MEMPOOL_COMPOSE_FILE}\"\ncompose_override = \"${MEMPOOL_COMPOSE_OVERRIDE}\"\nproject = \"${MEMPOOL_PROJECT}\"\nenv_file = \"${MEMPOOL_ENV_FILE}\""
    else if name == "podman_runtime"
    then "[service.podman_runtime]\nmanager = \"podman_machine\"\nmachine = \"${PODMAN_MACHINE_NAME}\""
    else "[service.<name>]\nmanager = \"launchd\"\nunit = \"${SERVICE_UNIT}\""

unfoldable pub missing_env_var_name : String → Option String
missing_env_var_name message = elim (split_once message "missing environment variable `") [
  | none ↦ none
  | some (before, tail) ↦ elim (split_once tail "`") [ none ↦ none | some (name, rest) ↦ some name ]
]

-- The error for a template that cannot be expanded.
unfoldable pub placeholder_error : String → String → String → Error → Result String
placeholder_error service_name field template e = elim (missing_env_var_name e.message) [
  | some var ↦ bail (
      "service `" ⧺ service_name ⧺ "` field `" ⧺ field ⧺ "` requires missing env var `" ⧺ var
      ⧺ "`. Set it in `.env` or export it in your shell (example: `export " ⧺ var
      ⧺ "=...`). Template: `" ⧺ template ⧺ "`")
  | none ↦ bail (
      "service `" ⧺ service_name ⧺ "` failed to resolve `" ⧺ field ⧺ "` placeholder(s): "
      ⧺ e.message)
]

abbrev pub or_explain : Result String → (Error → Result String) → Result String
or_explain (ok value) explain = ok value
or_explain (err e) explain = explain e

module _ (resolver : EnvResolver) where
  unfoldable pub resolve_placeholder_for_field : String → String → String → Result String
  resolve_placeholder_for_field service_name field template =
      or_explain (expand_placeholders template resolver)
        (placeholder_error service_name field template)

  -- A field that has to be there.
  unfoldable pub check_field : String → String → Option String → Result String
  check_field name field value = do
    template ← ok_or value (
        "service `"
        ⧺ name
        ⧺ "` is missing `"
        ⧺ field
        ⧺ "`.\n\nExample:\n"
        ⧺ example_service_block name)
    resolve_placeholder_for_field name field template

  -- `if let Some(value) = ..`
  unfoldable pub check_optional : String → String → Option String → Result (Unit {0})
  check_optional name field none = ok tt
  check_optional name field (some template) =
      resolve_placeholder_for_field name field template >>= λ value. ok tt

  unfoldable pub check_compose : String → ServiceConfig → Result (Unit {0})
  check_compose name service = do
    compose_file ← check_field name "compose_file" service.compose_file
    check_optional name "compose_override" service.compose_override
    check_optional name "project" service.project
    check_optional name "env_file" service.env_file

  -- The body of the `for` loop over the services.
  unfoldable pub check_service : String → ServiceConfig → Result (Unit {0})
  check_service name service =
      if service.manager == "launchd"
      then (check_field name "unit" service.unit >>= λ unit. ok tt)
      else if service.manager == "podman_compose"
      then check_compose name service
      else if service.manager == "podman_machine"
      then (check_field name "machine" service.machine >>= λ machine. ok tt)
      else bail ("service `" ⧺ name ⧺ "` has unsupported manager `" ⧺ service.manager ⧺ "`")

  unfoldable pub check_services : List (String × ServiceConfig) → Result (Unit {0})
  check_services [] = ok tt
  check_services ((name, service) ∷ services) =
      check_service name service >> check_services services

-- The `for` loop over the required services.
unfoldable pub check_required : List String → List (String × ServiceConfig) → Result (Unit {0})
check_required [] services = ok tt
check_required (name ∷ names) services =
    if is_some (lookup name services)
    then check_required names services
    else bail (
        "missing required service `"
        ⧺ name
        ⧺ "` in config.\n\nExample:\n"
        ⧺ example_service_block name)

abbrev has_service : String → Option (List (String × ServiceConfig)) → Bool
has_service name none = false
has_service name (some services) = is_some (lookup name services)

unfoldable pub missing_among : List String → Option (List (String × ServiceConfig)) → List String
missing_among [] existing = []
missing_among (name ∷ names) existing =
    let rest = missing_among names existing in
    if has_service name existing then rest else name ∷ rest

-- The blocks of the missing services, as they are appended.
unfoldable pub blocks_of : List String → String
blocks_of [] = ""
blocks_of (name ∷ names) = example_service_block name ⧺ "\n" ⧺ "\n" ⧺ blocks_of names

unfoldable pub with_blocks : String → List String → String
with_blocks raw names = (if ends_with_newline raw then raw else raw ⧺ "\n") ⧺ "\n" ⧺ blocks_of names

module _ (path : String) (file : Result String) (toml : String → Result BelterConfig)
    (write : String → Result (Unit {0})) where
  abbrev pub parse_file : String → Result BelterConfig
  parse_file raw = context (toml raw) ("failed to parse TOML from " ⧺ path)

  -- The names that were added, and the text of the file then.
  unfoldable pub append_missing_required_services :
      String → BelterConfig → Result (List String × String)
  append_missing_required_services raw config =
      let missing = missing_among required_services config.service in
      if is_empty missing then ok (missing, raw) else do
        context (write (with_blocks raw missing)) ("failed to write config file " ⧺ path)
        ok (missing, with_blocks raw missing)

  -- The names that were added, and the configuration to check.
  unfoldable pub completed : Bool → String → BelterConfig → Result (List String × BelterConfig)
  completed false raw config = ok ([], config)
  completed true raw config = do
    appended ← append_missing_required_services raw config
    if is_empty appended.0
        then ok (appended.0, config)
        else (parse_file appended.1 >>= λ again. ok (appended.0, again))

  unfoldable pub valid_message : List String → ℕ → String
  valid_message added count =
      if is_empty added
      then "configuration is valid (services checked: " ⧺ show_ℕ count ⧺ ")"
      else "configuration is valid (services checked: "
        ⧺ show_ℕ count
        ⧺ ", auto-added missing: "
        ⧺ join added
        ⧺ ")"

  -- The checks of the configuration: the services that passed.
  unfoldable pub check_config : EnvResolver → BelterConfig → Result (List (String × ServiceConfig))
  check_config resolver config = do
    services ←
        ok_or config.service
          ("missing [service] section.\n\nExample:\n" ⧺ example_service_block "bitcoind")
    (if is_empty services
        then bail "missing service definitions under [service]"
        else check_required required_services services)
    check_services resolver services
    ok services

  unfoldable pub validate_config_file : EnvResolver → Bool → Result String
  validate_config_file resolver write_missing = do
    raw ← context file ("failed to read config file " ⧺ path)
    config ← parse_file raw
    whole ← completed write_missing raw config
    services ← check_config resolver whole.1
    ok (valid_message whole.0 (length services))

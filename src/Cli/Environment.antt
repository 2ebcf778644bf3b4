-- ===== src/Cli/Environment.antt =====
-- The environment files of services (crates/infractl-cli/src/commands/service.rs). Loading a file
-- changes the environment of the process, so that the resolver of variables depends on the trace; the crate
-- dotenvy is a parameter.
use btc_infra_tools.Base.{none, some, List, [], ◌∷◌, String, ◌==◌, if◌then◌else◌}
use btc_infra_tools.Base.Text.{◌⧺◌}
use btc_infra_tools.Base.Result.{Result, context}
use btc_infra_tools.Core.Env.{EnvResolver, expand_placeholders}
use btc_infra_tools.Core.Config.{ServiceConfig, BelterConfig, service_by_name}
use btc_infra_tools.Adapters.World.{Trace, Act, ◌>>=◌, ◌>>◌, lift, return, loaded}

-- The environment after what has happened, and `from_filename_override`.
pub record Environment : Type 0 where
  pub resolver : Trace → EnvResolver
  pub from_filename_override : Trace → String → Result (Unit {0})

module _ (environment : Environment) where
  unfoldable pub read_environment : Act EnvResolver
  read_environment t = lift (Result.ok (environment.resolver t)) t

  unfoldable pub load_env_file : String → Act (Unit {0})
  load_env_file path t =
      let r =
        context (environment.from_filename_override t path)
          ("failed to load service env file " ⧺ path) in
      (r, loaded path r ∷ t)

  unfoldable pub load_service_env : ServiceConfig → Act (Unit {0})
  load_service_env service =
      if service.manager == "podman_compose"
      then elim service.env_file [
        | none ↦ return tt
        | some env_file_tmpl ↦ read_environment >>= λ resolver.
            lift (expand_placeholders env_file_tmpl resolver) >>= λ env_file. load_env_file env_file
      ]
      else return tt

  unfoldable pub maybe_load_service_env_file : BelterConfig → String → Act (Unit {0})
  maybe_load_service_env_file config service_name = elim (service_by_name config service_name) [
    | none ↦ return tt
    | some service ↦ load_service_env service
  ]

  -- The `for` loop of a bring-up.
  unfoldable pub load_env_files : BelterConfig → List String → Act (Unit {0})
  load_env_files config [] = return tt
  load_env_files config (name ∷ names) =
      maybe_load_service_env_file config name >> load_env_files config names

-- ===== src/Cli/Execution/Dry.antt =====
-- A dry run asks nothing of the system but to load environment files
-- (crates/infractl-cli/src/commands/service.rs).
use btc_infra_tools.Base.{List, [], ◌∷◌, String, true, ◌==◌}
use btc_infra_tools.Base.Result.{Result, ok, err}
use btc_infra_tools.Core.Config.{ServiceConfig, BelterConfig, service_by_name}
use btc_infra_tools.Core.Usecase.{ServiceAction}
use btc_infra_tools.Adapters.World.{System, Json, Trace, Act, loaded, lift, return}
use btc_infra_tools.Adapters.Rules.{
  Reaches, Leads, leads-quiet, leads-lift, leads-return, leads-if, leads-option, leads-bind,
}
use btc_infra_tools.Cli.Http.{Network}
use btc_infra_tools.Cli.BringUp.Planned.{build_bring_up_plan-Starts}
use btc_infra_tools.Cli.Environment.{
  Environment, read_environment, load_env_file, load_service_env, maybe_load_service_env_file,
  load_env_files,
}
use btc_infra_tools.Cli.Execution.{
  execute_in_sink, run_command, execute_service_command_from_config, run_bring_up,
  initial_runtime_state, execute_service_bring_up_from_config,
}

-- The trace is the one from the start, longer by loaded files only.
pub data Loads (start : Trace) : Trace → Type 0 where
  unchanged : Loads start start
  one_more :
      {t : Trace} (path : String) (r : Result (Unit {0}))
      → Loads start t
      → Loads start (loaded path r ∷ t)

module _ (start : Trace) where
  -- However the action ends.
  abbrev Only : {A : Type 0} → Act A → Type 0
  Only act = Leads (λ e. Loads start) (Loads start) act (λ a. Loads start)

  lift-Only : {A : Type 0} (r : Result A) → Only (lift r)
  lift-Only r = leads-lift r (λ t a e h. h) (λ t e q h. h)

  return-Only : {A : Type 0} (a : A) → Only (return a)
  return-Only a = leads-return a (λ t h. h)

  module _ (environment : Environment) where
    read_environment-Only : Only (read_environment environment)
    unfolding read_environment lift
    read_environment-Only = record { run = λ t h. h }

    load_env_file-Only : (path : String) → Only (load_env_file environment path)
    unfolding load_env_file
    load_env_file-Only path = record { run = λ t h. recorded t _ h }
      where
        recorded :
            (t : Trace) (r : Result (Unit {0}))
            → Loads start t
            → Reaches (λ e. Loads start) (λ a. Loads start) (r, loaded path r ∷ t)
        recorded t (ok done) h = one_more path (ok done) h
        recorded t (err e) h = one_more path (err e) h

    load_service_env-Only : (service : ServiceConfig) → Only (load_service_env environment service)
    unfolding load_service_env
    load_service_env-Only service =
        leads-if (service.manager == "podman_compose")
          (λ _.
            leads-option service.env_file (λ _. return-Only tt)
              (λ template _.
                leads-bind read_environment-Only
                  (λ resolver. leads-bind (lift-Only _) (λ env_file. load_env_file-Only env_file))))
          (λ _. return-Only tt)

    maybe_load-Only :
        (config : BelterConfig) (name : String)
        → Only (maybe_load_service_env_file environment config name)
    unfolding maybe_load_service_env_file
    maybe_load-Only config name =
        leads-option (service_by_name config name) (λ _. return-Only tt)
          (λ service _. load_service_env-Only service)

    load_env_files-Only :
        (config : BelterConfig) (names : List String)
        → Only (load_env_files environment config names)
    unfolding load_env_files
    load_env_files-Only config [] = return-Only tt
    load_env_files-Only config (name ∷ names) =
        leads-bind (maybe_load-Only config name) (λ done. load_env_files-Only config names)

module _ (system : System) (json : Json) (network : Network) (environment : Environment)
    (loaded_config : Result BelterConfig) where
  command-Only :
      (start : Trace) (service_name : String) (action : ServiceAction)
      → Only start (
          execute_service_command_from_config system json network environment loaded_config
            service_name action true)
  unfolding execute_service_command_from_config run_command execute_in_sink
  command-Only start service_name action = leads-bind (lift-Only start _) (λ config.
      leads-bind (maybe_load-Only start environment config service_name) (λ done.
        leads-bind (read_environment-Only start environment) (λ resolver.
          leads-bind (lift-Only start _)
            (λ made. leads-bind (lift-Only start _) (λ reports. return-Only start _)))))

  bring_up-Only :
      (start : Trace) (service_name : String)
      → Only start (
          execute_service_bring_up_from_config system json network environment loaded_config
            service_name true)
  unfolding execute_service_bring_up_from_config initial_runtime_state run_bring_up execute_in_sink
  bring_up-Only start service_name = leads-bind (lift-Only start _) (λ config.
      leads-bind (lift-Only start _) (λ ordered.
        leads-bind (load_env_files-Only start environment config ordered) (λ done.
          leads-bind (read_environment-Only start environment) (λ resolver.
            leads-bind (return-Only start _) (λ initial_state.
              leads-bind
                (leads-quiet _
                  (λ t. (build_bring_up_plan-Starts system json resolver _ config ordered t).0))
                (λ made. leads-bind (lift-Only start _) (λ reports. return-Only start _)))))))

Loads-of :
    {A : Type 0} (start : Trace) (outcome : Result A × Trace)
    → Reaches (λ e. Loads start) (λ a. Loads start) outcome
    → Loads start outcome.1
Loads-of start (ok a, t) h = h
Loads-of start (err e, t) h = h

-- A dry run of a service command and a dry run of a bring-up run no command, send no request and do
-- not sleep: they add to the trace at most environment files that they load, however they end.
pub dry_runs-Loads :
    (system : System) (json : Json) (network : Network) (environment : Environment)
    (loaded_config : Result BelterConfig) (service_name : String) (action : ServiceAction)
    (t : Trace)
    → Loads t
        (execute_service_command_from_config system json network environment loaded_config
          service_name action true t).1
      × Loads t
          (execute_service_bring_up_from_config system json network environment loaded_config
            service_name true t).1
dry_runs-Loads system json network environment loaded_config service_name action t = (
  Loads-of t _ (
      (command-Only system json network environment loaded_config t service_name action).run t
        unchanged),
  Loads-of t _ (
      (bring_up-Only system json network environment loaded_config t service_name).run t unchanged),
)

-- ===== src/Cli/Validation/Plannable.antt =====
-- A configuration that is valid can be planned for
-- (crates/infractl-cli/src/commands/config.rs, crates/infractl-core/src/usecase.rs).
use btc_infra_tools.Base.{
  ◌≡◌, refl, some, List, [], ◌∷◌, String, Bool, true, false, ◌==◌, lookup, is_some, is_empty, All,
  Bool-cases, inl, inr, if◌then◌else◌, eq_iff,
}
use btc_infra_tools.Base.Result.{Result, ok, bail, >>=-eq-ok}
use btc_infra_tools.Core.Env.{EnvResolver}
use btc_infra_tools.Core.Config.{ServiceConfig, BelterConfig}
use btc_infra_tools.Core.Plan.{Plan}
use btc_infra_tools.Core.Usecase.{ServiceAction, service_operation, plan}
use btc_infra_tools.Cli.Validation.{
  check_service, check_services, check_required, check_config, required_services, completed,
  validate_config_file,
}
use btc_infra_tools.Cli.Validation.Passed.{
  ok_or-inversion, context-inversion, plan-ok, Made, service-Made,
}

-- The service that a name finds has passed its checks.
found-checked :
    (resolver : EnvResolver) (services : List (String × ServiceConfig)) (name : String)
    (service : ServiceConfig)
    → check_services resolver services ≡ ok tt
    → lookup name services ≡ some service
    → check_service resolver name service ≡ ok tt
unfolding check_services
found-checked resolver [] name service h found = cc
found-checked resolver ((other, its) ∷ services) name service h found =
    let (done, p, q) = >>=-eq-ok _ _ h in
    look (other == name) refl p (found-checked resolver services name service q) found
  where
    look :
        (is_it : Bool)
        → (other == name) ≡ is_it
        → check_service resolver other its ≡ ok tt
        → (lookup name services ≡ some service → check_service resolver name service ≡ ok tt)
        → (if is_it then some its else lookup name services) ≡ some service
        → check_service resolver name service ≡ ok tt
    look true e p rest h = let same : its ≡ service = cc in rw (← same, ← (eq_iff other name).0 e) p
    look false e p rest h = rest h

-- Every required service has an entry.
required-found :
    (names : List String) (services : List (String × ServiceConfig))
    → check_required names services ≡ ok tt
    → All (λ name. is_some (lookup name services) ≡ true) names
unfolding check_required
required-found [] services h = tt
required-found (name ∷ names) services h = elim (Bool-cases (is_some (lookup name services))) [
  | inl e ↦ (e, required-found names services (if_true (is_some (lookup name services)) _ _ e h))
  | inr e ↦ absurd (if_false (is_some (lookup name services)) _ _ e h)
]
  where
    if_true :
        (b : Bool) (r : Result (Unit {0})) (text : String)
        → b ≡ true
        → (if b then r else bail text) ≡ ok tt
        → r ≡ ok tt
    if_true true r text e h = h
    if_true false r text e h = cc

    if_false :
        (b : Bool) (r : Result (Unit {0})) (text : String)
        → b ≡ false
        → (if b then r else bail text) ≡ ok tt
        → ⊥
    if_false true r text e h = cc
    if_false false r text e h = cc

-- A configuration in which every required service has an entry, and for whose every service and every
-- action there is a plan.
pub record IsPlannable (resolver : EnvResolver) (config : BelterConfig) : Type 0 where
  pub services : List (String × ServiceConfig)
  pub has_services : config.service ≡ some services
  pub has_required : All (λ name. is_some (lookup name services) ≡ true) required_services
  pub has_plans :
      (name : String) (service : ServiceConfig) (action : ServiceAction)
      → lookup name services ≡ some service
      → (made : Plan) × (plan
            (record { config = config; service_name = name; action = action })
            resolver
          ≡ ok made)

module _ (path : String) (file : Result String) (toml : String → Result BelterConfig)
    (write : String → Result (Unit {0})) (resolver : EnvResolver) where
  unless_empty :
      (services : List (String × ServiceConfig)) (r : Result (Unit {0})) (text : String)
      → (if is_empty services then bail text else r) ≡ ok tt
      → r ≡ ok tt
  unless_empty [] r text h = cc
  unless_empty (service ∷ services) r text h = h

  check_config-IsPlannable :
      (config : BelterConfig) (services : List (String × ServiceConfig))
      → check_config path file toml write resolver config ≡ ok services
      → IsPlannable resolver config
  unfolding check_config
  check_config-IsPlannable config services h =
      let (all, p, q) = >>=-eq-ok _ _ h in
      let (done, p2, q2) = >>=-eq-ok _ _ q in
      let (checked, p3, q3) = >>=-eq-ok _ _ q2 in
      let given = ok_or-inversion config.service _ all p in
      record {
        services = all;
        has_services = given;
        has_required = required-found required_services all (unless_empty all _ _ p2);
        has_plans = λ name service action found.
            planned config all name service action given found (
              service-Made resolver name service
                (record { config = config; service_name = name; action = action })
                (found-checked resolver all name service p3 found));
      }
    where
      planned :
          (config : BelterConfig) (services : List (String × ServiceConfig)) (name : String)
          (service : ServiceConfig) (action : ServiceAction)
          → config.service ≡ some services
          → lookup name services ≡ some service
          → Made (
              service_operation
                (record { config = config; service_name = name; action = action })
                service
                resolver)
          → (made : Plan) × (plan
                (record { config = config; service_name = name; action = action })
                resolver
              ≡ ok made)
      planned config services name service action given found (operation, made) =
          (_, plan-ok resolver _ service operation services given found made)

  -- Where the validation of a file ends well, its text was read and parsed, the missing services were added
  -- if that was asked for, and in the configuration then every required service has an entry and every
  -- action on every service has a plan, with the same environment.
  pub validate_config_file-IsPlannable :
      (write_missing : Bool) (message : String)
      → validate_config_file path file toml write resolver write_missing ≡ ok message
      → (raw : String) × (config : BelterConfig) × (added : List String) × (whole : BelterConfig)
        × (file ≡ ok raw)
        × (toml raw ≡ ok config)
        × (completed path file toml write write_missing raw config ≡ ok (added, whole))
        × IsPlannable resolver whole
  unfolding validate_config_file
  validate_config_file-IsPlannable write_missing message h =
      let (raw, p, q) = >>=-eq-ok _ _ h in
      let (config, p2, q2) = >>=-eq-ok _ _ q in
      let (whole, p3, q3) = >>=-eq-ok _ _ q2 in
      let (services, p4, q4) = >>=-eq-ok _ _ q3 in
      (
        raw,
        config,
        whole.0,
        whole.1,
        context-inversion file _ raw p,
        context-inversion (toml raw) _ config p2,
        p3,
        check_config-IsPlannable whole.1 services p4,
      )

-- ===== src/Cli/BringUp/Planned.antt =====
-- What a dry bring-up plans (crates/infractl-cli/src/commands/service.rs).
use btc_infra_tools.Base.{◌≡◌, subst, ap, List, [], ◌∷◌, ◌++◌, String, true}
use btc_infra_tools.Base.Result.{ok}
use btc_infra_tools.Core.Env.{EnvResolver}
use btc_infra_tools.Core.Config.{BelterConfig}
use btc_infra_tools.Core.Plan.{Operation}
use btc_infra_tools.Core.Usecase.{start}
use btc_infra_tools.Adapters.World.{Trace, System, Json, Act, lift}
use btc_infra_tools.Adapters.Chains.{act-eq-ok, return-eq-ok, lift-eq-ok, quiet_chain, quiet_lift}
use btc_infra_tools.Cli.Runtime.{MempoolProbeStatus}
use btc_infra_tools.Cli.BringUp.{
  BringUpPlan, operations_of, dry_service, plan_services, build_bring_up_plan,
}

module _ (system : System) (json : Json) (resolver : EnvResolver) (probe : Act MempoolProbeStatus)
    (config : BelterConfig) where
  -- The operations that start these services, one service after the other.
  pub data Starts : List String → List Operation → Type 0 where
    starts_none : Starts [] []
    starts_next :
        (name : String) (names : List String) (own others : List Operation)
        → operations_of system json resolver probe config name start ≡ ok own
        → Starts names others
        → Starts (name ∷ names) (own ++ others)

  plan_services-quiet :
      (names : List String) (t : Trace)
      → (plan_services system json resolver probe config true names t).1 ≡ t
  unfolding plan_services dry_service
  plan_services-quiet [] t = quiet_lift _ t
  plan_services-quiet (name ∷ names) t =
      quiet_chain _ _ t (quiet_chain _ _ t (quiet_lift _ t) (λ operations u. quiet_lift _ u))
        (λ made u. quiet_chain _ _ u (plan_services-quiet names u) (λ more v. quiet_lift _ v))

  plan_services-Starts :
      (names : List String) (t : Trace) (made : BringUpPlan)
      → (plan_services system json resolver probe config true names t).0 ≡ ok made
      → Starts names made.plan.operations
  unfolding plan_services dry_service
  plan_services-Starts [] t made h = rw (← return-eq-ok _ t made h) starts_none
  plan_services-Starts (name ∷ names) t made h =
      let (own, p, q) = act-eq-ok (dry_service system json resolver probe config name) _ t made h in
      let (ops, p', r) =
        act-eq-ok (lift (operations_of system json resolver probe config name start)) _ t own p in
      let same : ops ≡ own.0 = ap (λ pair. pair.0) (return-eq-ok _ _ own r) in
      let u = (dry_service system json resolver probe config name t).1 in
      let (more, q', r') =
        act-eq-ok (plan_services system json resolver probe config true names) _ u made q in
      let whole : own.0 ++ more.plan.operations ≡ made.plan.operations =
        ap (λ b. b.plan.operations) (return-eq-ok _ _ made r') in
      subst (λ xs. Starts (name ∷ names) xs) whole
        (starts_next name names own.0 more.plan.operations
          (subst (λ xs. operations_of system json resolver probe config name start ≡ ok xs) same
            (lift-eq-ok _ t ops p'))
          (plan_services-Starts names u more q'))

  -- A dry bring-up runs no command, and its plan starts the services in the given order, each by the
  -- operations of its own plan for `start`.
  pub build_bring_up_plan-Starts :
      (names : List String) (t : Trace)
      → ((build_bring_up_plan system json resolver probe config names true t).1 ≡ t)
        × ((made : BringUpPlan)
            → (build_bring_up_plan system json resolver probe config names true t).0 ≡ ok made
            → Starts names made.plan.operations)
  unfolding build_bring_up_plan
  build_bring_up_plan-Starts names t = (plan_services-quiet names t, plan_services-Starts names t)

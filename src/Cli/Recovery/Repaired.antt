-- ===== src/Cli/Recovery/Repaired.antt =====
-- What the recovery of a bring-up executes, and that it ends with mempool serving
-- (crates/infractl-cli/src/commands/service.rs).
use mathlib.Core.List.{append_assoc, append-nil}
use btc_infra_tools.Base.{
  ◌≡◌, refl, ◌∙◌, sym, ap, Option, none, some, List, [], ◌++◌, String, true, arith, ◌==◌,
}
use btc_infra_tools.Base.Result.{Error, Result, ok}
use btc_infra_tools.Core.Env.{EnvResolver}
use btc_infra_tools.Core.Config.{BelterConfig}
use btc_infra_tools.Core.Plan.{Operation, Plan}
use btc_infra_tools.Core.Usecase.{ServiceAction, start, restart, plan}
use btc_infra_tools.Adapters.World.{Trace, System, Json}
use btc_infra_tools.Adapters.Executor.{execute}
use btc_infra_tools.Adapters.Rules.{
  Leads, Anyhow, leads-any, leads-lift, leads-return, leads-option, leads-from, leads-assume,
  leads-bind, leads-inspect,
}
use btc_infra_tools.Cli.Http.{Network}
use btc_infra_tools.Cli.Runtime.{RuntimeState, running, stopped, syncing, degraded, unknown}
use btc_infra_tools.Cli.Readiness.Reached.{Reached, wait-Reached}
use btc_infra_tools.Cli.Recovery.{
  Progress, note, bring_up_retry_action_after_failed_readiness,
  bring_up_runtime_retry_action_after_failed_readiness, bring_up_runtime_recovery_service,
  execute_service_action, state_now, wait_again, retry_service,
  retry_mempool_service_after_failed_readiness, retry_runtime,
  retry_mempool_runtime_after_failed_readiness, recover_runtime,
  recover_mempool_readiness_if_needed,
}

module _ (resolver : EnvResolver) (config : BelterConfig) (service_name : String) where
  abbrev plan_for : String → ServiceAction → Result Plan
  plan_for name action =
      plan (record { config = config; service_name = name; action = action }) resolver

  -- The operations that a retry of the service may add: none, or those of its restart, where its state
  -- was unknown before the bring-up.
  pub data Retries (initial_state : RuntimeState) : List Operation → Type 0 where
    untouched : Retries initial_state []
    restarted :
        (made : Plan)
        → (service_name == "mempool") ≡ true
        → initial_state ≡ unknown
        → plan_for service_name restart ≡ ok made
        → Retries initial_state made.operations

  -- Those that the whole recovery may add: after a retry of the service, at most one restart of the
  -- podman machine that it depends on, and then the start of the service again.
  pub data Repairs (initial_state : RuntimeState) : List Operation → Type 0 where
    retried :
        (operations : List Operation)
        → Retries initial_state operations
        → Repairs initial_state operations
    runtime_restarted :
        (operations : List Operation) (runtime_name : String) (machine service : Plan)
        → Retries initial_state operations
        → bring_up_runtime_recovery_service config service_name ≡ some runtime_name
        → plan_for runtime_name restart ≡ ok machine
        → plan_for service_name start ≡ ok service
        → Repairs initial_state ((operations ++ machine.operations) ++ service.operations)

  -- The progress is this one with more operations, which are of this kind.
  abbrev pub Extends : (List Operation → Type 0) → List Operation → Progress → Type 0
  Extends kind before after =
      (more : List Operation) × (after.operations ≡ before ++ more) × kind more

  module _ (system : System) (json : Json) (network : Network) where
    action-Extends :
        (name : String) (action : ServiceAction) (progress : Progress)
        → Leads Anyhow
            (λ t. Unit)
            (execute_service_action system json network resolver config name action progress)
            (λ done t.
              (made : Plan) × (plan_for name action ≡ ok made)
              × (done.operations ≡ progress.operations ++ made.operations))
    unfolding execute_service_action
    action-Extends name action progress =
        leads-bind {Q = λ made t. (plan_for name action ≡ ok made) × Unit {0}}
          (leads-lift _ (λ t made e h. (e, tt)) (λ t e q h. tt))
          (λ made. leads-assume (λ planned.
            leads-bind (leads-any (execute system json made))
              (λ reports. leads-return _ (λ t h. (made, planned, refl)))))

    -- The retry of the service: mempool serves now, or there is an error to go on with.
    abbrev Retried : RuntimeState → List Operation → Option Error × Progress → Trace → Type 0
    Retried initial_state before (none, progress) t =
        Extends (Retries initial_state) before progress × Reached resolver t
    Retried initial_state before (some e, progress) t =
        Extends (Retries initial_state) before progress

    wait_again-Retried :
        (initial_state : RuntimeState) (before : List Operation) (progress : Progress)
        → Extends (Retries initial_state) before progress
        → Leads Anyhow
            (λ t. Unit)
            (wait_again system json network resolver config service_name progress)
            (Retried initial_state before)
    unfolding wait_again
    wait_again-Retried initial_state before progress f =
        leads-inspect Anyhow (wait-Reached resolver network) (λ e. leads-return _ (λ t h. f))
          (λ done. leads-return _ (λ t h. (f, h)))

    retry-inversion :
        (initial_state : RuntimeState) (action : ServiceAction)
        → bring_up_retry_action_after_failed_readiness service_name initial_state ≡ some action
        → ((service_name == "mempool") ≡ true) × (initial_state ≡ unknown) × (action ≡ restart)
    unfolding bring_up_retry_action_after_failed_readiness
    retry-inversion unknown action h = ground (arith, h)
    retry-inversion running action h = cc
    retry-inversion stopped action h = cc
    retry-inversion syncing action h = cc
    retry-inversion degraded action h = cc

    retry_service-Retried :
        (initial_state : RuntimeState) (e : Error) (action : Option ServiceAction)
        (progress : Progress)
        → bring_up_retry_action_after_failed_readiness service_name initial_state ≡ action
        → Leads Anyhow
            (λ t. Unit)
            (retry_service system json network resolver config service_name initial_state e action
              progress)
            (Retried initial_state progress.operations)
    unfolding retry_service note
    retry_service-Retried initial_state e none progress h =
        leads-return _ (λ t u. ([], sym (append-nil _), untouched))
    retry_service-Retried initial_state e (some action) progress h =
        let (named, was, is_restart) = retry-inversion initial_state action h in
        leads-bind (action-Extends service_name action _) (λ done. record {
          run = λ t (made, planned, grown).
              (wait_again-Retried initial_state progress.operations _ (
                made.operations,
                grown,
                restarted made named was (rw (← is_restart) planned),
              )).run
                t tt;
        })

    runtime-restart :
        (state : RuntimeState) (action : ServiceAction)
        → bring_up_runtime_retry_action_after_failed_readiness state ≡ some action
        → action ≡ restart
    unfolding bring_up_runtime_retry_action_after_failed_readiness
    runtime-restart degraded action h = cc
    runtime-restart running action h = cc
    runtime-restart stopped action h = cc
    runtime-restart syncing action h = cc
    runtime-restart unknown action h = cc

    -- Mempool serves, after repairs.
    abbrev Repaired : RuntimeState → List Operation → Progress → Trace → Type 0
    Repaired initial_state before progress t =
        Extends (Repairs initial_state) before progress × Reached resolver t

    joined :
        (before more machine service : List Operation) {between last : List Operation}
        → between ≡ (before ++ more) ++ machine
        → last ≡ between ++ service
        → last ≡ before ++ ((more ++ machine) ++ service)
    joined before more machine service e f =
        f
        ∙ ap (λ xs. xs ++ service) (e ∙ append_assoc before more machine)
        ∙ append_assoc before (more ++ machine) service

    retry_runtime-Repaired :
        (initial_state state : RuntimeState) (before : List Operation) (runtime_name : String)
        (e : Error) (action : Option ServiceAction) (progress : Progress)
        → bring_up_runtime_recovery_service config service_name ≡ some runtime_name
        → bring_up_runtime_retry_action_after_failed_readiness state ≡ action
        → Extends (Retries initial_state) before progress
        → Leads Anyhow
            (λ t. Unit)
            (retry_runtime system json network resolver config service_name runtime_name state e
              action progress)
            (Repaired initial_state before)
    unfolding retry_runtime note
    retry_runtime-Repaired initial_state state before runtime_name e none progress found h f =
        leads-lift _ (λ t a q u. cc) (λ t e q u. tt)
    retry_runtime-Repaired initial_state state before runtime_name e (some action) progress found h
          (more, extended, retries) =
        leads-bind (action-Extends runtime_name action _) (λ machined. record {
          run = λ t (machine, machine_planned, machine_grown).
              (leads-bind {E = Anyhow} {P = λ u. Unit {0}} (action-Extends service_name start _)
                  (λ reapplied. record {
                    run = λ u (service, service_planned, service_grown).
                        (leads-bind {E = Anyhow} {P = λ v. Unit {0}} (wait-Reached resolver network)
                            (λ done. leads-return _ (λ v reached. (
                              (
                                (more ++ machine.operations) ++ service.operations,
                                joined before more machine.operations service.operations
                                    (machine_grown ∙ ap (λ xs. xs ++ machine.operations) extended)
                                    service_grown,
                                runtime_restarted more runtime_name machine service retries found
                                    (rw (← runtime-restart state action h) machine_planned)
                                    service_planned,
                              ),
                              reached,
                            )))).run
                          u tt;
                  })).run
                t tt;
        })

    retry_mempool_runtime-Repaired :
        (initial_state : RuntimeState) (before : List Operation) (e : Error) (progress : Progress)
        → Extends (Retries initial_state) before progress
        → Leads Anyhow
            (λ t. Unit)
            (retry_mempool_runtime_after_failed_readiness system json network resolver config
              service_name e progress)
            (Repaired initial_state before)
    unfolding retry_mempool_runtime_after_failed_readiness
    retry_mempool_runtime-Repaired initial_state before e progress f =
        leads-option (bring_up_runtime_recovery_service config service_name)
          (λ missing. leads-lift _ (λ t a q u. cc) (λ t e q u. tt))
          (λ runtime_name found.
            leads-bind (leads-any (state_now system json network resolver config runtime_name))
              (λ state.
                retry_runtime-Repaired initial_state state before runtime_name e _ progress found
                  refl f))

    recover_runtime-Repaired :
        (initial_state : RuntimeState) (before : List Operation)
        (retried_to : Option Error × Progress)
        → Leads Anyhow
            (Retried initial_state before retried_to)
            (recover_runtime system json network resolver config service_name retried_to.0
              retried_to.1)
            (Repaired initial_state before)
    unfolding recover_runtime
    recover_runtime-Repaired initial_state before (none, progress) =
        leads-return progress (λ t ((more, extended, retries), reached).
          ((more, extended, retried more retries), reached))
    recover_runtime-Repaired initial_state before (some e, progress) = record {
      run = λ t f. (retry_mempool_runtime-Repaired initial_state before e progress f).run t tt;
    }

    -- Where the recovery ends well, mempool serves, by the latest requests of the trace, and only the
    -- operations of repairs were added to the plan.
    pub recover-Repaired :
        (initial_state : RuntimeState) (progress : Progress)
        → Leads Anyhow
            (λ t. Unit)
            (recover_mempool_readiness_if_needed system json network resolver config service_name
              initial_state progress)
            (Repaired initial_state progress.operations)
    unfolding recover_mempool_readiness_if_needed retry_mempool_service_after_failed_readiness
    recover-Repaired initial_state progress =
        leads-inspect Anyhow (wait-Reached resolver network)
          (λ e.
            leads-from (λ t h. tt)
              (leads-bind (retry_service-Retried initial_state e _ progress refl)
                (recover_runtime-Repaired initial_state progress.operations)))
          (λ done.
            leads-return progress
              (λ t reached. (([], sym (append-nil _), retried [] untouched), reached)))

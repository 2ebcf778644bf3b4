-- ===== src/Cli/Execution/Served.antt =====
-- What a bring-up that is not a dry run has done when it ends well
-- (crates/infractl-cli/src/commands/service.rs).
use btc_infra_tools.Base.{
  ◌≡◌, refl, ap, sym, ◌∙◌, subst, Option, some, List, ◌++◌, String, Bool, true, false, ◌==◌, map,
}
use btc_infra_tools.Base.Result.{Error, Result, ok, err, ok-injective}
use btc_infra_tools.Core.Env.{EnvResolver}
use btc_infra_tools.Core.Config.{BelterConfig}
use btc_infra_tools.Core.Plan.{Operation, ExecutionReport}
use btc_infra_tools.Adapters.World.{System, Json, Trace, Act, continue, ◌>>=◌, lift, return}
use btc_infra_tools.Adapters.Executor.{execute}
use btc_infra_tools.Adapters.Rules.{Anyhow, post_of}
use btc_infra_tools.Cli.Http.{Network}
use btc_infra_tools.Cli.Runtime.{RuntimeState}
use btc_infra_tools.Cli.BringUp.{BringUpPlan, build_bring_up_plan}
use btc_infra_tools.Cli.Readiness.{probe_mempool_status}
use btc_infra_tools.Cli.Readiness.Reached.{Reached}
use btc_infra_tools.Cli.Environment.{Environment, read_environment, load_env_files}
use btc_infra_tools.Cli.Recovery.{
  Progress, note, waiting_event, state_now, recover_mempool_readiness_if_needed,
}
use btc_infra_tools.Cli.Recovery.Repaired.{Repairs, recover-Repaired}
use btc_infra_tools.Cli.Execution.{
  PlanExecutionResult, ordered_services, await_mempool, run_bring_up, with_level,
  initial_runtime_state, execute_service_bring_up_from_config,
}

ne_err : {B : Type 0} {e : Error} {b : B} → ◌≡◌ {A = Result B} (err e) (ok b) → ⊥
ne_err h = cc

-- Where a chain ends well, its first action does, and the rest goes on from there.
continue-ran :
    {A B : Type 0} (next : A → Act B) (outcome : Result A × Trace) (b : B) (u : Trace)
    → continue outcome next ≡ (ok b, u)
    → (a : A) × (v : Trace) × (outcome ≡ (ok a, v)) × (next a v ≡ (ok b, u))
continue-ran next (err e, v) b u h = absurd (ne_err (ap (λ r. r.0) h))
continue-ran next (ok a, v) b u h = (a, v, refl, h)

bind-ran :
    {A B : Type 0} (act : Act A) (next : A → Act B) (t : Trace) (b : B) (u : Trace)
    → (act >>= next) t ≡ (ok b, u)
    → (a : A) × (v : Trace) × (act t ≡ (ok a, v)) × (next a v ≡ (ok b, u))
unfolding ◌>>=◌
bind-ran act next t b u h = continue-ran next (act t) b u h

lift-ran :
    {A : Type 0} (r : Result A) (t : Trace) (a : A) (u : Trace)
    → lift r t ≡ (ok a, u)
    → (r ≡ ok a) × (t ≡ u)
unfolding lift
lift-ran r t a u h = (ap (λ o. o.0) h, ap (λ o. o.1) h)

lift-bind-ran :
    {A B : Type 0} (r : Result A) (next : A → Act B) (t : Trace) (b : B) (u : Trace)
    → (lift r >>= next) t ≡ (ok b, u)
    → (a : A) × (r ≡ ok a) × (next a t ≡ (ok b, u))
unfolding lift ◌>>=◌
lift-bind-ran (ok a) next t b u h = (a, refl, h)
lift-bind-ran (err e) next t b u h = absurd (ne_err (ap (λ r. r.0) h))

some-bind-ran :
    {A B : Type 0} (outcome : Result A × Trace) (next : Option A → Act B) (b : B) (u : Trace)
    → continue (continue outcome (λ a. return (some a))) next ≡ (ok b, u)
    → (a : A) × (v : Trace) × (outcome ≡ (ok a, v)) × (next (some a) v ≡ (ok b, u))
unfolding lift
some-bind-ran (ok a, v) next b u h = (a, v, refl, h)
some-bind-ran (err e, v) next b u h = absurd (ne_err (ap (λ r. r.0) h))

module _ (system : System) (json : Json) (network : Network) (environment : Environment)
    (loaded_config : Result BelterConfig) (service_name : String) where
  -- What the plan's execution has left: its operations and reports.
  abbrev pub executed : BringUpPlan → List ExecutionReport → Progress
  executed made reports = record {
    operations = made.plan.operations;
    execution_report = reports;
    events = map with_level made.events;
  }

  -- For mempool: it is ready or syncing by the latest requests, and what was executed beside the plan are
  -- repairs, from the state that the service had at first. For another service: nothing was done beside
  -- the plan.
  abbrev pub Ended :
      EnvResolver
      → BelterConfig
      → Bool
      → RuntimeState
      → Progress
      → Trace
      → Progress
      → Trace
      → Type 0
  Ended resolver config true state planned ran_at progress u =
      (more : List Operation) × (progress.operations ≡ planned.operations ++ more)
      × Repairs resolver config service_name state more
      × Reached resolver u
  Ended resolver config false state planned ran_at progress u = (progress ≡ planned) × (ran_at ≡ u)

  -- The configuration was read and an order found. Then, each from where the one before ended: the
  -- environment files were loaded, the state of the service was read, the plan was made with the
  -- environment after these files, it was executed, and the rest is as `Ended` says.
  pub record Served (t : Trace) (result : PlanExecutionResult) (u : Trace) : Type 0 where
    pub config : BelterConfig
    pub ordered : List String
    pub state : RuntimeState
    pub made : BringUpPlan
    pub reports : List ExecutionReport
    pub progress : Progress
    pub loaded_at : Trace
    pub known_at : Trace
    pub made_at : Trace
    pub ran_at : Trace
    pub is_loaded : loaded_config ≡ ok config
    pub is_ordered : ordered_services config service_name ≡ ok ordered
    pub has_files : load_env_files environment config ordered t ≡ (ok tt, loaded_at)
    pub has_state :
        state_now system json network (environment.resolver loaded_at) config service_name loaded_at
        ≡ (ok state, known_at)
    pub is_planned :
        build_bring_up_plan system json
          (environment.resolver loaded_at)
          (probe_mempool_status (environment.resolver loaded_at) network)
          config
          ordered
          false
          known_at
        ≡ (ok made, made_at)
    pub is_executed : execute system json made.plan made_at ≡ (ok reports, ran_at)
    pub goes_on :
        await_mempool system json network environment loaded_config
          (environment.resolver loaded_at)
          config
          service_name
          (some state)
          (executed made reports)
          ran_at
        ≡ (ok progress, u)
    pub has_operations : result.plan.operations ≡ progress.operations
    pub has_reports : result.execution_report ≡ progress.execution_report
    pub is_ended :
        Ended
          (environment.resolver loaded_at)
          config
          (service_name == "mempool")
          state
          (executed made reports)
          ran_at
          progress
          u

  await_mempool-Ended :
      (resolver : EnvResolver) (config : BelterConfig) (is_mempool : Bool) (state : RuntimeState)
      (planned : Progress) (ran_at : Trace) (progress : Progress) (u : Trace)
      → (service_name == "mempool") ≡ is_mempool
      → await_mempool system json network environment loaded_config resolver config service_name
          (some state)
          planned
          ran_at
        ≡ (ok progress, u)
      → Ended resolver config is_mempool state planned ran_at progress u
  unfolding await_mempool note lift
  await_mempool-Ended resolver config true state planned ran_at progress u is_it h =
      let (recovered, v, ran, back) =
        bind-ran
          (recover_mempool_readiness_if_needed system json network resolver config service_name
            state (note (waiting_event system json network resolver config) planned))
          _ ran_at progress u (rw (is_it, await_mempool) at h) in
      let (same_progress, same_trace) = lift-ran _ v progress u back in
      let ((more, extended, repairs), reached) =
        post_of Anyhow _ _ recovered
          ((recover-Repaired resolver config service_name system json network state
              (note (waiting_event system json network resolver config) planned)).run
            ran_at tt)
          (ap (λ o. o.0) ran) in
      (
        more,
        ap (λ p. p.operations) (sym (ok-injective same_progress)) ∙ extended,
        repairs,
        subst (Reached resolver) (ap (λ o. o.1) ran ∙ same_trace) reached,
      )
  await_mempool-Ended resolver config false state planned ran_at progress u is_it h =
      let (e, f) = lift-ran (ok planned) ran_at progress u (rw (is_it, await_mempool) at h) in
      (sym (ok-injective e), f)

  run_bring_up-ran :
      (resolver : EnvResolver) (config : BelterConfig) (ordered : List String)
      (state : RuntimeState) (made : BringUpPlan) (made_at : Trace) (result : PlanExecutionResult)
      (u : Trace)
      → run_bring_up system json network environment loaded_config resolver config service_name
          false ordered
          (some state)
          made
          made_at
        ≡ (ok result, u)
      → (reports : List ExecutionReport) × (ran_at : Trace) × (progress : Progress) × (execute
            system json made.plan made_at
          ≡ (ok reports, ran_at))
        × (await_mempool system json network environment loaded_config resolver config service_name
              (some state)
              (executed made reports)
              ran_at
            ≡ (ok progress, u))
        × (result.plan.operations ≡ progress.operations)
        × (result.execution_report ≡ progress.execution_report)
  unfolding run_bring_up
  run_bring_up-ran resolver config ordered state made made_at result u h =
      let (reports, ran_at, ran, h7) = bind-ran _ _ made_at result u h in
      let (progress, v, awaited, h8) = bind-ran _ _ ran_at result u h7 in
      let (same_result, same_trace) = lift-ran _ v result u h8 in
      (
        reports,
        ran_at,
        progress,
        ran,
        awaited ∙ ap (λ w. (ok progress, w)) same_trace,
        ap (λ r. r.plan.operations) (sym (ok-injective same_result)),
        ap (λ r. r.execution_report) (sym (ok-injective same_result)),
      )

  -- Where a bring-up that is not a dry run ends well, its configuration was read, an order was found, the
  -- environment files were loaded, a plan was made for the order and was executed with success. The plan
  -- that a bring-up of mempool tells is that one, followed by the operations of repairs only, which the
  -- state of mempool at the beginning allows; and it ends with requests that say that mempool serves, or
  -- that its backend does and its fees are still syncing. A bring-up of another service ends with the
  -- execution of its plan, and tells that plan and its reports.
  pub execute_service_bring_up_from_config-Served :
      (t : Trace) (result : PlanExecutionResult) (u : Trace)
      → execute_service_bring_up_from_config system json network environment loaded_config
          service_name false t
        ≡ (ok result, u)
      → Served t result u
  unfolding execute_service_bring_up_from_config read_environment initial_runtime_state lift ◌>>=◌
  execute_service_bring_up_from_config-Served t result u h =
      let (config, is_loaded, h1) = lift-bind-ran loaded_config _ t result u h in
      let (ordered, is_ordered, h2) =
        lift-bind-ran (ordered_services config service_name) _ t result u h1 in
      let (done, loaded_at, files, h3) =
        bind-ran (load_env_files environment config ordered) _ t result u h2 in
      let resolver = environment.resolver loaded_at in
      let (state, known_at, known, h5) =
        some-bind-ran (state_now system json network resolver config service_name loaded_at) _
          result u h3 in
      let (made, made_at, planned, h6) =
        bind-ran
          (build_bring_up_plan system json resolver (probe_mempool_status resolver network) config
            ordered false)
          _ known_at result u h5 in
      let (reports, ran_at, progress, ran, awaited, operations, told) =
        run_bring_up-ran resolver config ordered state made made_at result u h6 in
      record {
        config = config;
        ordered = ordered;
        state = state;
        made = made;
        reports = reports;
        progress = progress;
        loaded_at = loaded_at;
        known_at = known_at;
        made_at = made_at;
        ran_at = ran_at;
        is_loaded = is_loaded;
        is_ordered = is_ordered;
        has_files = files;
        has_state = known;
        is_planned = planned;
        is_executed = ran;
        goes_on = awaited;
        has_operations = operations;
        has_reports = told;
        is_ended =
            await_mempool-Ended resolver config _ state (executed made reports) ran_at progress u
              refl awaited;
      }

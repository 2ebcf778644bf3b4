-- ===== src/Adapters/Executor/Reports.antt =====
-- What the execution of a plan reports, and how it stops (crates/infractl-adapters/src/executor.rs).
use btc_infra_tools.Base.{ℕ, ◌+◌, ◌≡◌, refl, ap, sym, ◌∙◌, List, [], ◌∷◌, ◌++◌}
use btc_infra_tools.Base.Result.{ok}
use btc_infra_tools.Core.Plan.{
  Operation, ExecutionReport, Plan, start_launchd_service, stop_launchd_service,
  restart_launchd_service, start_podman_compose_service, stop_podman_compose_service,
  restart_podman_compose_service, start_podman_machine, stop_podman_machine, restart_podman_machine,
}
use btc_infra_tools.Adapters.Chains.{act-eq-ok, return-eq-ok}
use btc_infra_tools.Adapters.World.{Trace, System, Json, Act, ◌>>◌, return}
use btc_infra_tools.Adapters.Launchd.{restart_unit}
use btc_infra_tools.Adapters.Executor.{execute_operation, execute_from, execute}

abbrev pub operation_indices : List ExecutionReport → List ℕ
operation_indices [] = []
operation_indices (r ∷ rs) = r.operation_index ∷ operation_indices rs

-- The number of the operation, if it restarts a unit of `launchd`.
abbrev restart_index : ℕ → Operation → List ℕ
restart_index n (restart_launchd_service unit) = n ∷ []
restart_index n _ = []

abbrev pub restart_indices : ℕ → List Operation → List ℕ
restart_indices n [] = []
restart_indices n (op ∷ ops) = restart_index n op ++ restart_indices (n + 1) ops

module _ (system : System) (json : Json) where
  indices-append :
      (rs ss : List ExecutionReport)
      → operation_indices (rs ++ ss) ≡ operation_indices rs ++ operation_indices ss
  indices-append [] ss = refl
  indices-append (r ∷ rs) ss = ap (λ ns. r.operation_index ∷ ns) (indices-append rs ss)

  no_reports :
      (act : Act (Unit {0})) (t : Trace) (reports : List ExecutionReport)
      → ((act >> return []) t).0 ≡ ok reports
      → operation_indices reports ≡ []
  no_reports act t reports h =
      let (_, _, q) = act-eq-ok act (λ _. return []) t reports h in
      rw (← return-eq-ok [] _ reports q) refl

  execute_operation-index :
      (n : ℕ) (op : Operation) (t : Trace) (reports : List ExecutionReport)
      → (execute_operation system json n op t).0 ≡ ok reports
      → operation_indices reports ≡ restart_index n op
  unfolding execute_operation
  execute_operation-index n (start_launchd_service unit) t rs h = no_reports _ t rs h
  execute_operation-index n (stop_launchd_service unit) t rs h = no_reports _ t rs h
  execute_operation-index n (restart_launchd_service unit) t rs h =
      let (details, _, q) = act-eq-ok (restart_unit system unit) _ t rs h in
      rw (← return-eq-ok _ _ rs q) refl
  execute_operation-index n (start_podman_compose_service file over project) t rs h =
      no_reports _ t rs h
  execute_operation-index n (stop_podman_compose_service file over project) t rs h =
      no_reports _ t rs h
  execute_operation-index n (restart_podman_compose_service file over project) t rs h =
      no_reports _ t rs h
  execute_operation-index n (start_podman_machine machine) t rs h = no_reports _ t rs h
  execute_operation-index n (stop_podman_machine machine) t rs h = no_reports _ t rs h
  execute_operation-index n (restart_podman_machine machine) t rs h = no_reports _ t rs h

  execute_from-indices :
      (n : ℕ) (ops : List Operation) (t : Trace) (reports : List ExecutionReport)
      → (execute_from system json n ops t).0 ≡ ok reports
      → operation_indices reports ≡ restart_indices n ops
  unfolding execute_from
  execute_from-indices n [] t rs h = rw (← return-eq-ok [] t rs h) refl
  execute_from-indices n (op ∷ ops) t rs h =
      let (made, p, q) = act-eq-ok (execute_operation system json n op) _ t rs h in
      let u = (execute_operation system json n op t).1 in
      let (others, p', q') = act-eq-ok (execute_from system json (n + 1) ops) _ u rs q in
      let e : made ++ others ≡ rs = return-eq-ok _ _ rs q' in
      ap operation_indices (sym e)
      ∙ (indices-append made others
          ∙ (ap (λ ns. ns ++ operation_indices others) (execute_operation-index n op t made p)
              ∙ ap (λ ns. restart_index n op ++ ns) (execute_from-indices (n + 1) ops u others p')))

  -- Where the execution of a plan succeeds, it reports the restarts of `launchd` units and nothing
  -- else, in their order, each with the number that its operation has in the plan, from 1.
  pub execute-indices :
      (p : Plan) (t : Trace) (reports : List ExecutionReport)
      → (execute system json p t).0 ≡ ok reports
      → operation_indices reports ≡ restart_indices 1 p.operations
  unfolding execute
  execute-indices p t reports h = execute_from-indices 1 p.operations t reports h

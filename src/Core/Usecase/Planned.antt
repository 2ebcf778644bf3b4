-- ===== src/Core/Usecase/Planned.antt =====
-- What a plan is to hold, stated without the order of the code's checks
-- (crates/infractl-core/src/usecase.rs).
use btc_infra_tools.Base.{
  Option, none, some, [], ◌∷◌, String, ◌≡◌, refl, ◌↔◌, false, inl, inr, ◌==◌, eq_iff, arith,
  Bool-cases, Option-cases,
}
use btc_infra_tools.Base.Text.{trim}
use btc_infra_tools.Base.Result.{ok, ◌>>=◌, >>=-eq-ok}
use btc_infra_tools.Core.Env.{EnvResolver, expand_placeholders}
use btc_infra_tools.Core.Config.{ServiceConfig, service_by_name}
use btc_infra_tools.Core.Plan.{
  Operation, start_launchd_service, stop_launchd_service, restart_launchd_service,
  start_podman_compose_service, stop_podman_compose_service, restart_podman_compose_service,
  start_podman_machine, stop_podman_machine, restart_podman_machine, Plan,
}
use btc_infra_tools.Core.Usecase.{
  ServiceAction, start, stop, restart, ServiceCommandRequest, launchd_action, compose_action,
  machine_action, expand_option, launchd_operation, podman_compose_operation,
  podman_machine_operation, manager_operation, service_operation, plan,
}

-- What an action asks for: the first to start, the second to stop, the third to restart.
pub data IsFor (to_start to_stop to_restart : Operation) : ServiceAction → Operation → Type 0 where
  for_start : IsFor to_start to_stop to_restart start to_start
  for_stop : IsFor to_start to_stop to_restart stop to_stop
  for_restart : IsFor to_start to_stop to_restart restart to_restart

-- The operation of the launchd unit, of the compose project and of the machine, for an action.
abbrev pub IsForUnit : String → ServiceAction → Operation → Type 0
IsForUnit unit =
    IsFor (start_launchd_service unit) (stop_launchd_service unit) (restart_launchd_service unit)

abbrev pub IsForCompose :
    String → Option String → Option String → ServiceAction → Operation → Type 0
IsForCompose file override project =
    IsFor (start_podman_compose_service file override project)
      (stop_podman_compose_service file override project)
      (restart_podman_compose_service file override project)

abbrev pub IsForMachine : String → ServiceAction → Operation → Type 0
IsForMachine machine =
    IsFor (start_podman_machine machine) (stop_podman_machine machine)
      (restart_podman_machine machine)

launchd_action-IsForUnit :
    (unit : String) (action : ServiceAction) → IsForUnit unit action (launchd_action action unit)
unfolding launchd_action
launchd_action-IsForUnit unit start = for_start
launchd_action-IsForUnit unit stop = for_stop
launchd_action-IsForUnit unit restart = for_restart

IsForUnit-launchd_action :
    (unit : String) {action : ServiceAction} {op : Operation}
    → IsForUnit unit action op
    → op ≡ launchd_action action unit
unfolding launchd_action
IsForUnit-launchd_action unit for_start = refl
IsForUnit-launchd_action unit for_stop = refl
IsForUnit-launchd_action unit for_restart = refl

compose_action-IsForCompose :
    (file : String) (override project : Option String) (action : ServiceAction)
    → IsForCompose file override project action (compose_action action file override project)
unfolding compose_action
compose_action-IsForCompose file override project start = for_start
compose_action-IsForCompose file override project stop = for_stop
compose_action-IsForCompose file override project restart = for_restart

IsForCompose-compose_action :
    (file : String) (override project : Option String) {action : ServiceAction} {op : Operation}
    → IsForCompose file override project action op
    → op ≡ compose_action action file override project
unfolding compose_action
IsForCompose-compose_action file override project for_start = refl
IsForCompose-compose_action file override project for_stop = refl
IsForCompose-compose_action file override project for_restart = refl

machine_action-IsForMachine :
    (machine : String) (action : ServiceAction)
    → IsForMachine machine action (machine_action action machine)
unfolding machine_action
machine_action-IsForMachine machine start = for_start
machine_action-IsForMachine machine stop = for_stop
machine_action-IsForMachine machine restart = for_restart

IsForMachine-machine_action :
    (machine : String) {action : ServiceAction} {op : Operation}
    → IsForMachine machine action op
    → op ≡ machine_action action machine
unfolding machine_action
IsForMachine-machine_action machine for_start = refl
IsForMachine-machine_action machine for_stop = refl
IsForMachine-machine_action machine for_restart = refl

module _ (req : ServiceCommandRequest) (service : ServiceConfig) (resolve : EnvResolver) where
  -- The operation that the manager of a service asks for, from the expanded fields of the service.
  pub data Planned (op : Operation) : Type 0 where
    launchd :
        (template unit : String)
        → service.manager ≡ "launchd"
        → service.unit ≡ some template
        → expand_placeholders template resolve ≡ ok unit
        → IsForUnit unit req.action op
        → Planned op
    podman_compose :
        (template file : String) (override project : Option String)
        → service.manager ≡ "podman_compose"
        → service.compose_file ≡ some template
        → expand_placeholders template resolve ≡ ok file
        → expand_option service.compose_override resolve ≡ ok override
        → expand_option service.project resolve ≡ ok project
        → IsForCompose file override project req.action op
        → Planned op
    podman_machine :
        (template machine : String)
        → service.manager ≡ "podman_machine"
        → service.machine ≡ some template
        → expand_placeholders template resolve ≡ ok machine
        → IsForMachine machine req.action op
        → Planned op

  launchd_operation-ok :
      {op : Operation}
      → launchd_operation req service resolve ≡ ok op
      → (template : String) × (unit : String) × (service.unit ≡ some template)
        × (expand_placeholders template resolve ≡ ok unit)
        × (op ≡ launchd_action req.action unit)
  unfolding launchd_operation
  launchd_operation-ok h = ground arith

  podman_compose_operation-ok :
      {op : Operation}
      → podman_compose_operation req service resolve ≡ ok op
      → (template : String) × (file : String) × (override : Option String) × (project : Option
          String)
        × (service.compose_file ≡ some template)
        × (expand_placeholders template resolve ≡ ok file)
        × (expand_option service.compose_override resolve ≡ ok override)
        × (expand_option service.project resolve ≡ ok project)
        × (op ≡ compose_action req.action file override project)
  unfolding podman_compose_operation
  podman_compose_operation-ok h = ground arith

  podman_machine_operation-ok :
      {op : Operation}
      → podman_machine_operation req service resolve ≡ ok op
      → (template : String) × (machine : String) × (service.machine ≡ some template)
        × (expand_placeholders template resolve ≡ ok machine)
        × (op ≡ machine_action req.action machine)
  unfolding podman_machine_operation
  podman_machine_operation-ok h = ground arith

  no_operation :
      {op : Operation}
      → (service.manager == "launchd") ≡ false
      → (service.manager == "podman_compose") ≡ false
      → (service.manager == "podman_machine") ≡ false
      → manager_operation req service resolve ≡ ok op
      → ⊥
  unfolding manager_operation
  no_operation m n k h = ground arith

  manager_operation-ok :
      {op : Operation} → manager_operation req service resolve ≡ ok op → Planned op
  unfolding manager_operation
  manager_operation-ok h = elim (Bool-cases (service.manager == "launchd")) [
    | inl m ↦
        let (template, unit, p, q, r) = launchd_operation-ok (rw (m, manager_operation) at h) in
        launchd template unit ((eq_iff _ _).0 m) p q
          (rw r (launchd_action-IsForUnit unit req.action))
    | inr m ↦ elim (Bool-cases (service.manager == "podman_compose")) [
      | inl n ↦
          let (t, f, o, j, p, q, r, u, v) =
            podman_compose_operation-ok (rw (m, n, manager_operation) at h) in
          podman_compose t f o j ((eq_iff _ _).0 n) p q r u
            (rw v (compose_action-IsForCompose f o j req.action))
      | inr n ↦ elim (Bool-cases (service.manager == "podman_machine")) [
        | inl k ↦
            let (t, f, p, q, r) =
              podman_machine_operation-ok (rw (m, n, k, manager_operation) at h) in
            podman_machine t f ((eq_iff _ _).0 k) p q
              (rw r (machine_action-IsForMachine f req.action))
        | inr k ↦ absurd (no_operation m n k h)
      ]
    ]
  ]

  Planned-manager_operation :
      {op : Operation} → Planned op → manager_operation req service resolve ≡ ok op
  unfolding manager_operation launchd_operation podman_compose_operation podman_machine_operation
  Planned-manager_operation (launchd t u m p q r) =
      let e = IsForUnit-launchd_action u r in rw m (ground arith)
  Planned-manager_operation (podman_compose t f o j m p q r u v) =
      let e = IsForCompose-compose_action f o j v in rw m (ground arith)
  Planned-manager_operation (podman_machine t u m p q r) =
      let e = IsForMachine-machine_action u r in rw m (ground arith)

  Planned-trim : {op : Operation} → Planned op → (trim service.manager == "") ≡ false
  unfolding trim
  Planned-trim (launchd t u m p q r) = rw m
  Planned-trim (podman_compose t f o j m p q r u v) = rw m
  Planned-trim (podman_machine t u m p q r) = rw m

service_operation-ok :
    (req : ServiceCommandRequest) (service : ServiceConfig) (resolve : EnvResolver) {op : Operation}
    → service_operation req service resolve ≡ ok op
    → manager_operation req service resolve ≡ ok op
unfolding service_operation
service_operation-ok req service resolve h = ground arith

pub plan_found :
    (req : ServiceCommandRequest) (resolve : EnvResolver) (service : ServiceConfig)
    → service_by_name req.config req.service_name ≡ some service
    → plan req resolve
      ≡ (do op ← service_operation req service resolve; ok (record { operations = op ∷ [] }))
unfolding plan service_by_name
plan_found req resolve service e = ground arith

plan-none :
    (req : ServiceCommandRequest) (resolve : EnvResolver) (p : Plan)
    → service_by_name req.config req.service_name ≡ none
    → plan req resolve ≡ ok p
    → ⊥
unfolding plan service_by_name
plan-none req resolve p e h = ground arith

plan-service :
    (req : ServiceCommandRequest) (resolve : EnvResolver) (p : Plan) (service : ServiceConfig)
    → service_by_name req.config req.service_name ≡ some service
    → plan req resolve ≡ ok p
    → (op : Operation) × Planned req service resolve op × (p.operations ≡ op ∷ [])
plan-service req resolve p service e h =
    let (op, made, q) =
      >>=-eq-ok (λ op. ok (record { operations = op ∷ [] })) {c = p}
        (service_operation req service resolve) (rw (← plan_found req resolve service e) h) in
    (
      op,
      manager_operation-ok req service resolve (service_operation-ok req service resolve made),
      ground arith,
    )

-- A plan is made exactly where the service is configured and its manager's operation can be built:
-- the manager is one of the three, its field is given, and the placeholders of the fields that go
-- into the operation are resolved. The plan holds the one operation that starts, stops or restarts
-- the unit, the compose project or the machine, as the action says.
pub plan-Planned :
    (req : ServiceCommandRequest) (resolve : EnvResolver) (p : Plan)
    → (plan req resolve ≡ ok p) ↔ (
        (service : ServiceConfig) × (op : Operation) × (service_by_name req.config req.service_name
          ≡ some service)
        × Planned req service resolve op
        × (p.operations ≡ op ∷ []))
unfolding plan service_operation service_by_name
plan-Planned req resolve p = (
  λ h. elim (Option-cases (service_by_name req.config req.service_name)) [
    | inl e ↦ absurd (plan-none req resolve p e h)
    | inr (service, e) ↦
        let (op, planned, q) = plan-service req resolve p service e h in
        (service, op, e, planned, q)
  ],
  λ (service, op, found, planned, e).
      let made : manager_operation req service resolve ≡ ok op =
        Planned-manager_operation req service resolve planned in
      let named : (trim service.manager == "") ≡ false = Planned-trim req service resolve planned in
      ground arith,
)

-- ===== src/Cli/Status/Agrees.antt =====
-- The status of a compose service and the state that a bring-up acts on are the same
-- (crates/infractl-cli/src/commands/service.rs).
use btc_infra_tools.Base.{
  ◌≡◌, refl, ◌∙◌, Option, List, [], ◌∷◌, String, Bool, true, false, ◌==◌, if◌then◌else◌,
}
use btc_infra_tools.Base.Result.{Result, ok, err, ok-injective}
use btc_infra_tools.Core.Env.{EnvResolver, expand_placeholders}
use btc_infra_tools.Core.Config.{ServiceConfig}
use btc_infra_tools.Core.Usecase.{expand_option}
use btc_infra_tools.Adapters.World.{
  System, Json, Trace, Act, continue, ◌>>=◌, lift, return, inspect, run_on,
}
use btc_infra_tools.Adapters.Compose.{running_container_ids}
use btc_infra_tools.Cli.Http.{Network}
use btc_infra_tools.Cli.Readiness.{probe_mempool_status}
use btc_infra_tools.Cli.Runtime.{
  RuntimeState, MempoolProbeStatus, ready, probe_syncing, probe_degraded, state_of_probe,
  compose_state, compute_runtime_state,
}
use btc_infra_tools.Cli.Snapshot.{
  PodmanComposeStatusSnapshot, probed, judge_containers, with_project, with_override, with_file,
  compute_podman_compose_status_snapshot,
}

-- Where the state was found, so was a snapshot with that state, over the same trace.
abbrev pub Matches :
    Result RuntimeState × Trace → Result PodmanComposeStatusSnapshot × Trace → Type 0
Matches found shown =
    (state : RuntimeState)
    → found.0 ≡ ok state
    → (snapshot : PodmanComposeStatusSnapshot) × (shown.0 ≡ ok snapshot)
      × (snapshot.state ≡ state)
      × (shown.1 ≡ found.1)

Matches-if :
    (b : Bool) (t : Trace) (act other : Act RuntimeState)
    (show hide : Act PodmanComposeStatusSnapshot)
    → Matches (act t) (show t)
    → Matches (other t) (hide t)
    → Matches ((if b then act else other) t) ((if b then show else hide) t)
Matches-if true t act other show hide f g = f
Matches-if false t act other show hide f g = g

-- The branch of the manager podman compose.
chosen :
    {A : Type 0} (manager : String) (unit machine compose other : A)
    → manager ≡ "podman_compose"
    → (if manager == "launchd"
        then unit
        else if manager == "podman_machine"
        then machine
        else if manager == "podman_compose"
        then compose
        else other)
      ≡ compose
chosen manager unit machine compose other h = rw h refl

module _ (system : System) (json : Json) (network : Network) (resolver : EnvResolver)
    (service_name : String) where
  probed-state : (status : MempoolProbeStatus) → (probed status).0 ≡ state_of_probe status
  probed-state ready = refl
  probed-state (probe_syncing detail) = refl
  probed-state (probe_degraded detail) = refl

  module _ (compose_file : String) (compose_override project : Option String) where
    probe-Matches :
        (outcome : Result MempoolProbeStatus × Trace)
        (show : MempoolProbeStatus → PodmanComposeStatusSnapshot)
        → ((status : MempoolProbeStatus) → (show status).state ≡ (probed status).0)
        → Matches
            (continue outcome (λ status. return (state_of_probe status)))
            (continue outcome (λ status. return (show status)))
    unfolding lift
    probe-Matches (ok status, t) show f state h =
        (_, refl, f status ∙ probed-state status ∙ ok-injective h, refl)
    probe-Matches (err e, t) show f state h = cc

    containers-Matches :
        (outcome : Result (List String) × Trace)
        → Matches
            (run_on outcome (
              compose_state system json resolver
                (probe_mempool_status resolver network)
                service_name))
            (run_on outcome (
              judge_containers system json network resolver service_name compose_file
                compose_override project))
    unfolding compose_state judge_containers lift ◌>>=◌
    containers-Matches (err e, t) = λ state h. (_, refl, ok-injective h, refl)
    containers-Matches (ok [], t) = λ state h. (_, refl, ok-injective h, refl)
    containers-Matches (ok (id ∷ ids), t) =
        Matches-if (service_name == "mempool") t _ _ _ _
          (probe-Matches (probe_mempool_status resolver network t) _ (λ status. refl))
          (λ state h. (_, refl, ok-injective h, refl))

  module _ (service : ServiceConfig) where
    abbrev states : String → Option String → Option String → Act RuntimeState
    states compose_file compose_override project =
        inspect (running_container_ids system json compose_file compose_override project)
          (compose_state system json resolver (probe_mempool_status resolver network) service_name)

    project-Matches :
        (compose_file : String) (compose_override : Option String)
        (project : Result (Option String)) (t : Trace)
        → Matches ((lift project >>= λ p. states compose_file compose_override p) t) (
            with_project system json network resolver service_name service compose_file
              compose_override project t)
    unfolding with_project lift ◌>>=◌ inspect
    project-Matches compose_file compose_override (err e) t = λ state h. cc
    project-Matches compose_file compose_override (ok project) t =
        containers-Matches compose_file compose_override project
          (running_container_ids system json compose_file compose_override project t)

    override-Matches :
        (compose_file : String) (compose_override : Result (Option String)) (t : Trace)
        → Matches
            ((lift compose_override >>= λ over.
                lift (expand_option service.project resolver) >>= λ p. states compose_file over p)
              t)
            (with_override system json network resolver service_name service compose_file
              compose_override t)
    unfolding with_override lift ◌>>=◌
    override-Matches compose_file (err e) t = λ state h. cc
    override-Matches compose_file (ok compose_override) t =
        project-Matches compose_file compose_override (expand_option service.project resolver) t

    file-Matches :
        (template : String) (compose_file : Result String) (t : Trace)
        → Matches
            ((lift compose_file >>= λ file.
                lift (expand_option service.compose_override resolver) >>= λ over.
                lift (expand_option service.project resolver) >>= λ p. states file over p)
              t)
            (with_file system json network resolver service_name service template compose_file t)
    unfolding with_file lift ◌>>=◌
    file-Matches template (err e) t = λ state h. cc
    file-Matches template (ok file) t =
        override-Matches file (expand_option service.compose_override resolver) t

    compose-Matches :
        (template : Result String) (t : Trace)
        → Matches
            ((lift template >>= λ tmpl. lift (expand_placeholders tmpl resolver) >>= λ file.
                lift (expand_option service.compose_override resolver) >>= λ over.
                lift (expand_option service.project resolver) >>= λ p. states file over p)
              t)
            ((lift template >>= λ tmpl.
                with_file system json network resolver service_name service tmpl
                  (expand_placeholders tmpl resolver))
              t)
    unfolding lift ◌>>=◌
    compose-Matches (err e) t = λ state h. cc
    compose-Matches (ok template) t =
        file-Matches template (expand_placeholders template resolver) t

    -- For a service that podman compose manages: where a bring-up finds a state, the snapshot that its
    -- status is made of has the same state, and both have asked the system the same.
    pub compute_podman_compose_status_snapshot-Matches :
        (t : Trace)
        → service.manager ≡ "podman_compose"
        → Matches
            (compute_runtime_state system json resolver
              (probe_mempool_status resolver network)
              service_name
              service
              t)
            (compute_podman_compose_status_snapshot system json network resolver service_name
              service t)
    unfolding compute_runtime_state compute_podman_compose_status_snapshot
    compute_podman_compose_status_snapshot-Matches t h =
        rw (chosen service.manager _ _ _ _ h) (compose-Matches _ t)

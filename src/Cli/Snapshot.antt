-- ===== src/Cli/Snapshot.antt =====
-- The status of a service that podman compose manages, and what it says of the machine beneath it
-- (crates/infractl-cli/src/commands/service.rs).
use btc_infra_tools.Base.{
  Option, none, some, List, [], ◌∷◌, String, Bool, ◌&&◌, not, ◌==◌, contains, length, is_empty,
  unwrap_or, if◌then◌else◌,
}
use btc_infra_tools.Base.Text.{◌⧺◌, show_ℕ}
use btc_infra_tools.Base.Result.{Error, Result, ok, err, ok_or}
use btc_infra_tools.Core.Env.{EnvResolver, expand_placeholders}
use btc_infra_tools.Core.Config.{ServiceConfig, BelterConfig}
use btc_infra_tools.Core.Usecase.{expand_option, missing_field}
use btc_infra_tools.Adapters.World.{System, Json, Act, ◌>>=◌, lift, return, inspect}
use btc_infra_tools.Adapters.Compose.{running_container_ids}
use btc_infra_tools.Cli.Http.{Network}
use btc_infra_tools.Cli.Runtime.{
  RuntimeState, running, stopped, syncing, degraded, unknown, MempoolProbeStatus, ready,
  probe_syncing, probe_degraded, runtime_state_label,
}
use btc_infra_tools.Cli.Readiness.{mempool_health_url, probe_mempool_status}

pub record PodmanComposeStatusSnapshot : Type 0 where
  pub compose_file : String
  pub compose_override : Option String
  pub project : Option String
  pub state : RuntimeState
  pub running_containers : List String
  pub query_error : Option String
  pub health_url : Option String

pub record DependentComposeIssue : Type 0 where
  pub service : String
  pub state : RuntimeState
  pub running_containers : List String
  pub query_error : Option String

-- A snapshot that an error ended before the containers were asked for.
abbrev pub failed_snapshot : String → Option String → Error → PodmanComposeStatusSnapshot
failed_snapshot compose_file compose_override e = record {
  compose_file = compose_file;
  compose_override = compose_override;
  project = none;
  state = unknown;
  running_containers = [];
  query_error = some e.message;
  health_url = none;
}

-- A running mempool by its probe: the state and the detail.
abbrev pub probed : MempoolProbeStatus → RuntimeState × Option String
probed ready = (running, none)
probed (probe_syncing detail) = (syncing, some detail)
probed (probe_degraded detail) = (degraded, some detail)

abbrev pub is_degraded : RuntimeState → Bool
is_degraded degraded = Bool.true
is_degraded _ = Bool.false

module _ (system : System) (json : Json) (network : Network) (resolver : EnvResolver) where
  module _ (service_name compose_file : String) (compose_override project : Option String) where
    -- The snapshot of the templates with what was found of the containers.
    abbrev pub snapshot_of :
        RuntimeState → List String → Option String → Option String → PodmanComposeStatusSnapshot
    snapshot_of state ids query_error health_url = record {
      compose_file = compose_file;
      compose_override = compose_override;
      project = project;
      state = state;
      running_containers = ids;
      query_error = query_error;
      health_url = health_url;
    }

    -- The `match` on the running containers.
    unfoldable pub judge_containers : Result (List String) → Act PodmanComposeStatusSnapshot
    judge_containers (err e) = return (snapshot_of unknown [] (some e.message) none)
    judge_containers (ok []) = return (snapshot_of stopped [] none none)
    judge_containers (ok (id ∷ ids)) =
        if service_name == "mempool"
        then (probe_mempool_status resolver network >>= λ status. return (
            snapshot_of (probed status).0 (id ∷ ids) (probed status).1
              (some (mempool_health_url resolver))))
        else return (snapshot_of running (id ∷ ids) none none)

  module _ (service_name : String) (service : ServiceConfig) where
    unfoldable pub with_project :
        String → Option String → Result (Option String) → Act PodmanComposeStatusSnapshot
    with_project compose_file compose_override (err e) =
        return (failed_snapshot compose_file compose_override e)
    with_project compose_file compose_override (ok project) =
        inspect (running_container_ids system json compose_file compose_override project)
          (judge_containers service_name compose_file compose_override project)

    unfoldable pub with_override : String → Result (Option String) → Act PodmanComposeStatusSnapshot
    with_override compose_file (err e) = return (failed_snapshot compose_file none e)
    with_override compose_file (ok compose_override) =
        with_project compose_file compose_override (expand_option service.project resolver)

    unfoldable pub with_file : String → Result String → Act PodmanComposeStatusSnapshot
    with_file template (err e) = return (failed_snapshot template none e)
    with_file template (ok compose_file) =
        with_override compose_file (expand_option service.compose_override resolver)

    unfoldable pub compute_podman_compose_status_snapshot : Act PodmanComposeStatusSnapshot
    compute_podman_compose_status_snapshot =
        lift (ok_or service.compose_file (missing_field service_name "compose_file"))
        >>= λ template. with_file template (expand_placeholders template resolver)

  -- Whether the service runs on the given machine: podman compose manages it and it depends on that.
  unfoldable pub depends_on_runtime : String → ServiceConfig → Bool
  depends_on_runtime runtime_name service =
      service.manager == "podman_compose" && contains (unwrap_or service.depends_on []) runtime_name

  abbrev pub issue_of : String → PodmanComposeStatusSnapshot → DependentComposeIssue
  issue_of name snapshot = record {
    service = name;
    state = snapshot.state;
    running_containers = snapshot.running_containers;
    query_error = snapshot.query_error;
  }

  -- What the closure of `filter_map` keeps, in front of the issues of the other services.
  unfoldable pub keep_issue :
      String
      → Result PodmanComposeStatusSnapshot
      → List DependentComposeIssue
      → List DependentComposeIssue
  keep_issue name (err e) issues = issues
  keep_issue name (ok snapshot) issues =
      if is_degraded snapshot.state && not (is_empty snapshot.running_containers)
      then issue_of name snapshot ∷ issues
      else issues

  unfoldable pub issues_among :
      String → List (String × ServiceConfig) → Act (List DependentComposeIssue)
  issues_among runtime_name [] = return []
  issues_among runtime_name ((name, service) ∷ services) =
      let rest = issues_among runtime_name services in
      if depends_on_runtime runtime_name service
      then (inspect (compute_podman_compose_status_snapshot name service)
          λ snapshot. rest >>= λ issues. return (keep_issue name snapshot issues))
      else rest

  unfoldable pub dependent_compose_issues : BelterConfig → String → Act (List DependentComposeIssue)
  dependent_compose_issues config runtime_name =
      issues_among runtime_name (unwrap_or config.service [])

unfoldable pub derive_podman_runtime_state :
    List DependentComposeIssue → RuntimeState × Option String
derive_podman_runtime_state [] = (running, none)
derive_podman_runtime_state (issue ∷ issues) = (
  degraded,
  some (
      "dependent service `"
      ⧺ issue.service
      ⧺ "` is "
      ⧺ runtime_state_label issue.state
      ⧺ " with "
      ⧺ show_ℕ (length issue.running_containers)
      ⧺ " running container(s); podman port forwarding may be unhealthy: "
      ⧺ unwrap_or issue.query_error "dependent compose service reported degraded state"),
)

-- ===== src/Cli/Status/Counts.antt =====
-- The report of all services: every service once, in order, and counts that add up
-- (crates/infractl-cli/src/commands/service.rs).
use mathlib.Core.List.{List, [], ◌∷◌}
use btc_infra_tools.Base.{
  ℕ, suc, ◌+◌, ◌≡◌, refl, Option, none, some, String, arith, ◌==◌, length, map, Bool-cases,
  unwrap_or, Bool, true, false, count_if, sym, ap, ◌∙◌, inl, inr,
}
use btc_infra_tools.Base.Text.{◌⧺◌, show_ℕ}
use btc_infra_tools.Base.Int.{ℤ}
use btc_infra_tools.Base.Result.{Result, ok, err, ok_or}
use btc_infra_tools.Core.Env.{EnvResolver}
use btc_infra_tools.Core.Config.{ServiceConfig, BelterConfig}
use btc_infra_tools.Adapters.World.{System, Json, Trace, Act}
use btc_infra_tools.Adapters.Launchd.{unit_pid}
use btc_infra_tools.Adapters.Rules.{
  Leads, Anyhow, post_of, leads-any, leads-lift, leads-return, leads-if, leads-inspect_any,
  leads-assume, leads-bind,
}
use btc_infra_tools.Cli.Http.{Network}
use btc_infra_tools.Cli.Runtime.{
  RuntimeState, running, stopped, syncing, degraded, unknown, runtime_state_label,
}
use btc_infra_tools.Cli.Snapshot.{PodmanComposeStatusSnapshot}
use btc_infra_tools.Cli.Status.{
  AggregatedServiceStatusData, StatusComputation, bare_status, launchd_status, podman_status,
  podman_machine_status, with_health, sort_names, unit_state, launchd_computation, compose_data,
  compose_computation, machine_known, with_machine, machine_computation, compute_status,
  compute_all, count_state, all_message, status_all,
}

-- The status of this service, with the label of a state.
pub record IsStatus (service_name : String) (item : StatusComputation) : Type 0 where
  pub state : RuntimeState
  pub is_labelled : item.status_data.state ≡ runtime_state_label state
  pub is_named : item.status_data.service ≡ service_name

-- A status for each name, in the order of the names.
pub data AllStatus : List String → List StatusComputation → Type 0 where
  no_status : AllStatus [] []
  one_status :
      {name : String} {names : List String} {item : StatusComputation}
      {items : List StatusComputation}
      → IsStatus name item
      → AllStatus names items
      → AllStatus (name ∷ names) (item ∷ items)

-- Whether the states are the same, and how many of the states are this one.
abbrev same : RuntimeState → RuntimeState → Bool
same running running = true
same stopped stopped = true
same syncing syncing = true
same degraded degraded = true
same unknown unknown = true
same _ _ = false

abbrev pub tally : RuntimeState → List RuntimeState → ℕ
tally state states = count_if (same state) states

label-same :
    (state other : RuntimeState)
    → (runtime_state_label other == runtime_state_label state) ≡ same state other
unfolding runtime_state_label
label-same running other =
    elim other as (λ k. (runtime_state_label k == "running") ≡ same running k) [
      | running ↦ refl
      | stopped ↦ refl
      | syncing ↦ refl
      | degraded ↦ refl
      | unknown ↦ refl
    ]
label-same stopped other =
    elim other as (λ k. (runtime_state_label k == "stopped") ≡ same stopped k) [
      | running ↦ refl
      | stopped ↦ refl
      | syncing ↦ refl
      | degraded ↦ refl
      | unknown ↦ refl
    ]
label-same syncing other =
    elim other as (λ k. (runtime_state_label k == "syncing") ≡ same syncing k) [
      | running ↦ refl
      | stopped ↦ refl
      | syncing ↦ refl
      | degraded ↦ refl
      | unknown ↦ refl
    ]
label-same degraded other =
    elim other as (λ k. (runtime_state_label k == "degraded") ≡ same degraded k) [
      | running ↦ refl
      | stopped ↦ refl
      | syncing ↦ refl
      | degraded ↦ refl
      | unknown ↦ refl
    ]
label-same unknown other =
    elim other as (λ k. (runtime_state_label k == "unknown") ≡ same unknown k) [
      | running ↦ refl
      | stopped ↦ refl
      | syncing ↦ refl
      | degraded ↦ refl
      | unknown ↦ refl
    ]

-- The message for services in these states.
abbrev pub told : String → List RuntimeState → String
told ui states =
    "status target=all ui="
    ⧺ ui
    ⧺ " services="
    ⧺ show_ℕ (length states)
    ⧺ " running="
    ⧺ show_ℕ (tally running states)
    ⧺ " stopped="
    ⧺ show_ℕ (tally stopped states)
    ⧺ " syncing="
    ⧺ show_ℕ (tally syncing states)
    ⧺ " degraded="
    ⧺ show_ℕ (tally degraded states)
    ⧺ " unknown="
    ⧺ show_ℕ (tally unknown states)

tally_total :
    (states : List RuntimeState)
    → tally running states
        + tally stopped states
        + tally syncing states
        + tally degraded states
        + tally unknown states
      ≡ length states
tally_total [] = refl
tally_total (running ∷ states) = omega (arith, tally_total states)
tally_total (stopped ∷ states) = omega (arith, tally_total states)
tally_total (syncing ∷ states) = omega (arith, tally_total states)
tally_total (degraded ∷ states) = omega (arith, tally_total states)
tally_total (unknown ∷ states) = omega (arith, tally_total states)

abbrev rest_of : {A : Type 0} → List A → List A
rest_of [] = []
rest_of (x ∷ xs) = xs

-- Mapping keeps the number of elements, so lists with one image have one length.
length_same :
    {A B C : Type 0} (f : A → C) (g : B → C) (xs : List A) (ys : List B)
    → map f xs ≡ map g ys
    → length xs ≡ length ys
length_same f g [] [] h = refl
length_same f g (x ∷ xs) [] h = cc
length_same f g [] (y ∷ ys) h = cc
length_same f g (x ∷ xs) (y ∷ ys) h = ap suc (length_same f g xs ys (ap rest_of h))

unwrapped :
    {A : Type 0} (text : String) (o : Option (List A)) (xs : List A)
    → ok_or o text ≡ ok xs
    → unwrap_or o [] ≡ xs
unwrapped text none xs h = cc
unwrapped text (some ys) xs h = cc

module _ (system : System) (json : Json) (network : Network) (resolver : EnvResolver)
    (config : BelterConfig) (ui : String) where
  module _ (service_name : String) where
    abbrev Tells : Act StatusComputation → Type 0
    Tells act = Leads Anyhow (λ t. Unit) act (λ item t. IsStatus service_name item)

    unit_state-label :
        (result : Result (Option ℤ))
        → (r : RuntimeState) × ((unit_state system json network resolver config ui service_name
              result).0
            ≡ runtime_state_label r)
    unfolding runtime_state_label
    unit_state-label (ok none) = (stopped, refl)
    unit_state-label (ok (some pid)) = (running, refl)
    unit_state-label (err e) = (unknown, refl)

    launchd-Tells :
        (service : ServiceConfig)
        → Tells (launchd_computation system json network resolver config ui service_name service)
    unfolding launchd_computation launchd_status bare_status
    launchd-Tells service = leads-bind (leads-any _) (λ template. leads-bind (leads-any _) (λ unit.
        leads-inspect_any (unit_pid system unit) _ (λ result. leads-return _ (λ t h. record {
          state = (unit_state-label result).0;
          is_labelled = (unit_state-label result).1;
          is_named = refl;
        }))))

    compose_data-fields :
        (snapshot : PodmanComposeStatusSnapshot)
        → let status = compose_data system json network resolver config ui service_name snapshot in
          (status.state ≡ runtime_state_label snapshot.state) × (status.service ≡ service_name)
    unfolding compose_data podman_status with_health bare_status
    compose_data-fields snapshot = elim (Bool-cases (service_name == "mempool")) [
      | inl e ↦ rw e (refl, refl)
      | inr e ↦ rw e (refl, refl)
    ]

    compose-Tells :
        (service : ServiceConfig)
        → Tells (compose_computation system json network resolver config ui service_name service)
    unfolding compose_computation
    compose-Tells service = leads-bind (leads-any _) (λ snapshot. leads-return _ (λ t h. record {
      state = snapshot.state;
      is_labelled = (compose_data-fields snapshot).0;
      is_named = (compose_data-fields snapshot).1;
    }))

    with_machine-Tells :
        (template : String) (machine : Result String)
        → Tells (with_machine system json network resolver config ui service_name template machine)
    unfolding with_machine machine_known podman_machine_status bare_status runtime_state_label
    with_machine-Tells template (ok machine) = leads-bind (leads-any _) (λ found.
        leads-return _ (λ t h. record { state = found.0; is_labelled = refl; is_named = refl }))
    with_machine-Tells template (err e) =
        leads-return _ (λ t h. record { state = unknown; is_labelled = refl; is_named = refl })

    machine-Tells :
        (service : ServiceConfig)
        → Tells (machine_computation system json network resolver config ui service_name service)
    unfolding machine_computation
    machine-Tells service = leads-bind (leads-any _) (λ template. with_machine-Tells template _)

    pub compute_status-Tells :
        (service : ServiceConfig)
        → Tells (compute_status system json network resolver config ui service_name service)
    unfolding compute_status bare_status runtime_state_label
    compute_status-Tells service =
        leads-if (service.manager == "launchd") (λ _. launchd-Tells service)
          (λ _.
            leads-if (service.manager == "podman_compose") (λ _. compose-Tells service)
              (λ _.
                leads-if (service.manager == "podman_machine") (λ _. machine-Tells service)
                  (λ _.
                    leads-return _
                      (λ t h. record { state = unknown; is_labelled = refl; is_named = refl }))))

  compute_all-AllStatus :
      (services : List (String × ServiceConfig)) (names : List String)
      → Leads Anyhow
          (λ t. Unit)
          (compute_all system json network resolver config ui services names)
          (λ items t. AllStatus names items)
  unfolding compute_all
  compute_all-AllStatus services [] = leads-return [] (λ t h. no_status)
  compute_all-AllStatus services (name ∷ names) = leads-bind (leads-any _) (λ service.
      leads-bind (compute_status-Tells name service) (λ item. record {
        run = λ t status.
            (leads-bind {E = Anyhow} {P = λ u. Unit {0}} (compute_all-AllStatus services names)
                (λ others. leads-return _ (λ u rest. one_status status rest))).run
              t tt;
      }))

  states_of :
      {names : List String} {items : List StatusComputation}
      → AllStatus names items
      → List RuntimeState
  states_of no_status = []
  states_of (one_status status rest) = status.state ∷ states_of rest

  -- The code's count of a state.
  abbrev counted : RuntimeState → List StatusComputation → ℕ
  counted state items =
      count_state system json network resolver config ui (runtime_state_label state) items

  counted-tally :
      {names : List String} {items : List StatusComputation} (state : RuntimeState)
      (all : AllStatus names items)
      → counted state items ≡ tally state (states_of all)
  unfolding states_of
  counted-tally state no_status = refl
  counted-tally state (one_status status rest) =
      rw (status.is_labelled, label-same state status.state, counted-tally state rest) refl

  length-states_of :
      {names : List String} {items : List StatusComputation} (all : AllStatus names items)
      → length items ≡ length (states_of all)
  unfolding states_of
  length-states_of no_status = refl
  length-states_of (one_status status rest) = rw (length-states_of rest) refl

  all_message-told :
      {names : List String} {items : List StatusComputation} (all : AllStatus names items)
      → all_message system json network resolver config ui items ≡ told ui (states_of all)
  unfolding all_message runtime_state_label
  all_message-told all =
      rw
        (
          length-states_of all,
          counted-tally running all,
          counted-tally stopped all,
          counted-tally syncing all,
          counted-tally degraded all,
          counted-tally unknown all,
        )
        refl

  shown-states_of :
      {names : List String} {items : List StatusComputation} (all : AllStatus names items)
      → map (λ s. s.state) (map (λ item. item.status_data) items)
        ≡ map runtime_state_label (states_of all)
  unfolding states_of
  shown-states_of no_status = refl
  shown-states_of (one_status status rest) = rw (status.is_labelled, shown-states_of rest) refl

  named-AllStatus :
      {names : List String} {items : List StatusComputation} (all : AllStatus names items)
      → map (λ s. s.service) (map (λ item. item.status_data) items) ≡ names
  named-AllStatus no_status = refl
  named-AllStatus (one_status status rest) = rw (status.is_named, named-AllStatus rest) refl

  -- What the report of all services says: a state for each service, the data of the services in the order
  -- of their names with these states, and a message with the number of services in each state.
  pub record Reported (message : String) (shown : AggregatedServiceStatusData) : Type 0 where
    pub states : List RuntimeState
    pub is_named :
        map (λ s. s.service) shown.services
        ≡ sort_names (map (λ s. s.0) (unwrap_or config.service []))
    pub is_shown : map (λ s. s.state) shown.services ≡ map runtime_state_label states
    pub is_told : message ≡ told ui states
    pub is_total :
        tally running states
          + tally stopped states
          + tally syncing states
          + tally degraded states
          + tally unknown states
        ≡ length shown.services

  AllStatus-Reported :
      (services : List (String × ServiceConfig)) (items : List StatusComputation)
      → unwrap_or config.service [] ≡ services
      → AllStatus (sort_names (map (λ s. s.0) services)) items
      → Reported
          (all_message system json network resolver config ui items)
          (record { services = map (λ item. item.status_data) items })
  AllStatus-Reported services items found all = record {
    states = states_of all;
    is_named = rw found (named-AllStatus all);
    is_shown = shown-states_of all;
    is_told = all_message-told all;
    is_total = tally_total (states_of all) ∙ sym (length_same _ _ _ _ (shown-states_of all));
  }

  status_all-leads :
      Leads Anyhow
        (λ t. Unit)
        (status_all system json network resolver config ui)
        (λ r t. Reported r.0 r.1)
  unfolding status_all
  status_all-leads =
      leads-bind {Q = λ services t. (unwrap_or config.service [] ≡ services) × Unit {0}}
        (leads-lift _ (λ t services e h. (unwrapped _ config.service services e, tt))
          (λ t e q h. tt))
        (λ services. leads-assume (λ found.
          leads-bind (compute_all-AllStatus services _)
            (λ items. leads-return _ (λ t all. AllStatus-Reported services items found all))))

  -- Where the status of all services is told, each service has one status, in the order of the sorted
  -- names, with one of the five states; the message says how many services there are and how many of
  -- them are in each of the states, and these five numbers add up to the number of services.
  pub status_all-Reported :
      (t : Trace) (message : String) (shown : AggregatedServiceStatusData)
      → (status_all system json network resolver config ui t).0 ≡ ok (message, shown)
      → Reported message shown
  status_all-Reported t message shown =
      post_of Anyhow (λ r u. Reported r.0 r.1) _ (message, shown) (status_all-leads.run t tt)

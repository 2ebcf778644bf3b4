-- ===== src/Adapters/Machine/Saw.antt =====
-- What a check that says that a machine runs has seen (crates/infractl-adapters/src/lib.rs).
use btc_infra_tools.Base.{◌≡◌, refl, List, [], ◌∷◌, String, true, if◌then◌else◌, ap, sym, ◌∙◌}
use btc_infra_tools.Base.Text.{◌⧺◌, trim}
use btc_infra_tools.Base.Result.{Result, ok, err}
use btc_infra_tools.Adapters.Inspection.{PodmanMachineInspection, parse_podman_machine_inspection}
use btc_infra_tools.Adapters.World.{
  Json, Output, ran, Trace, System, continue, ◌>>=◌, lift, return, command,
}
use btc_infra_tools.Adapters.Rules.{
  Reaches, Leads, Anyhow, leads-lift, leads-return, leads-if, leads-bind, post_of,
}
use btc_infra_tools.Adapters.Machine.{
  PodmanMachineStatus, running, stopped, run_podman, probe_api, status_with,
}

abbrev trimmed : Output → Output
trimmed raw = record raw { stdout = trim raw.stdout; stderr = trim raw.stderr }

-- A command of podman that gave this output, after what `P` says.
record Gave (P : Trace → Type 0) (args : List String) (output : Output) (u : Trace) : Type 0 where
  raw : Output
  before : Trace
  is_trimmed : output ≡ trimmed raw
  is_whole : u ≡ ran "podman" args (ok raw) ∷ before
  held : P before

run_podman-Gave :
    (system : System) (P : Trace → Type 0) (args : List String)
    → Leads Anyhow P (run_podman system args) (Gave P args)
unfolding run_podman command ◌>>=◌ lift
run_podman-Gave system P args = record { run = λ t h. got t (system.output t "podman" args) h }
  where
    got :
        (t : Trace) (r : Result Output)
        → P t
        → Reaches Anyhow
            (Gave P args)
            (continue (r, ran "podman" args r ∷ t) (λ output. return (trimmed output)))
    got t (err e) h = tt
    got t (ok raw) h = record {
      raw = raw;
      before = t;
      is_trimmed = refl;
      is_whole = refl;
      held = h;
    }

module _ (system : System) (json : Json) (machine : String) where
  -- The trace ends with two commands that succeeded: `podman machine inspect`, whose output says that the
  -- machine runs, and `podman info` over the connection of that machine.
  pub record SawRunning (u : Trace) : Type 0 where
    pub before : Trace
    pub shown : Output
    pub answered : Output
    pub inspection : PodmanMachineInspection
    pub is_shown : shown.success ≡ true
    pub is_parsed : parse_podman_machine_inspection json (trim shown.stdout) ≡ ok inspection
    pub is_running : inspection.running ≡ true
    pub is_answered : answered.success ≡ true
    pub is_whole :
        u
        ≡ ran "podman"
            ("--connection"
              ∷ (if inspection.rootful then machine ⧺ "-root" else machine)
              ∷ "info"
              ∷ [])
            (ok answered)
          ∷ ran "podman" ("machine" ∷ "inspect" ∷ machine ∷ []) (ok shown)
          ∷ before

  abbrev Saw : PodmanMachineStatus → Trace → Type 0
  Saw status u = status ≡ running → SawRunning u

  abbrev inspect_args : List String
  inspect_args = "machine" ∷ "inspect" ∷ machine ∷ []

  -- The inspection has succeeded and was parsed.
  abbrev Inspected : PodmanMachineInspection → Trace → Type 0
  Inspected inspection u =
      (output : Output) × (output.success ≡ true)
      × (parse_podman_machine_inspection json output.stdout ≡ ok inspection)
      × Gave (λ t. Unit {0}) inspect_args output u

  probe_api-Saw :
      (inspection : PodmanMachineInspection)
      → Leads Anyhow (Inspected inspection) (probe_api system json machine inspection) Saw
  unfolding probe_api
  probe_api-Saw inspection =
      leads-if inspection.running
        (λ runs. leads-bind (run_podman-Gave system (Inspected inspection) _) (λ api.
          leads-if api.success
            (λ answers. leads-return running (λ u gave is_it.
              let (output, shows, parsed, first) = gave.held in
              record {
                before = first.before;
                shown = first.raw;
                answered = gave.raw;
                inspection = inspection;
                is_shown = sym (ap (λ o. o.success) first.is_trimmed) ∙ shows;
                is_parsed = rw (← ap (λ o. o.stdout) first.is_trimmed) parsed;
                is_running = runs;
                is_answered = sym (ap (λ o. o.success) gave.is_trimmed) ∙ answers;
                is_whole =
                    gave.is_whole ∙ ap (λ rest. ran "podman" _ (ok gave.raw) ∷ rest) first.is_whole;
              }))
            (λ fails. leads-return _ (λ u gave is_it. cc))))
        (λ rests. leads-return stopped (λ u h is_it. cc))

  status_with-Saw : Leads Anyhow (λ t. Unit {0}) (status_with system json machine) Saw
  unfolding status_with
  status_with-Saw = leads-bind (run_podman-Gave system (λ t. Unit {0}) inspect_args) (λ output.
      leads-if output.success
        (λ shows.
          leads-bind
            (leads-lift (parse_podman_machine_inspection json output.stdout)
              (λ u inspection parsed gave. (output, shows, parsed, gave)) (λ u e q h. tt))
            (λ inspection. probe_api-Saw inspection))
        (λ fails. leads-lift _ (λ u a q h. cc) (λ u e q h. tt)))

  pub status_with-SawRunning :
      (t : Trace)
      → (status_with system json machine t).0 ≡ ok running
      → SawRunning (status_with system json machine t).1
  status_with-SawRunning t h =
      post_of Anyhow Saw (status_with system json machine t) running (status_with-Saw.run t tt) h
        refl

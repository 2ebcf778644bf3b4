-- ===== src/Adapters/Machine/Ready.antt =====
-- A start that succeeds ends with a check that saw the machine and its API running
-- (crates/infractl-adapters/src/lib.rs).
use btc_infra_tools.Base.{
  ℕ, zero, suc, ◌≡◌, refl, [], ◌∷◌, String, Bool, true, false, ◌&&◌, ltb, if◌then◌else◌,
}
use btc_infra_tools.Base.Result.{Result, ok, err}
use btc_infra_tools.Adapters.World.{Trace, System, Json, Act, continue, ◌>>=◌, ◌>>◌, lift, inspect}
use btc_infra_tools.Adapters.Machine.{
  PodmanMachineStatus, running, stopped, degraded, run_machine_with, status_with, pause,
  handle_status, await_ready, start_with,
}
use btc_infra_tools.Adapters.Machine.Saw.{SawRunning, status_with-SawRunning}

module _ (Q : Trace → Type 0) where
  -- Where an action succeeds, its trace is as `Q` says.
  abbrev Leads : Act (Unit {0}) → Type 0
  Leads act = (t : Trace) → (act t).0 ≡ ok tt → Q (act t).1

  after_continue :
      (next : Act (Unit {0})) (outcome : Result (Unit {0}) × Trace)
      → Leads next
      → (continue outcome (λ _. next)).0 ≡ ok tt
      → Q (continue outcome (λ _. next)).1
  after_continue next (ok _, u) f h = f u h
  after_continue next (err e, u) f h = cc

  Leads-then : (act next : Act (Unit {0})) → Leads next → Leads (act >> next)
  unfolding ◌>>=◌
  Leads-then act next f t h = after_continue next (act t) f h

  Leads-if :
      (b : Bool) (act other : Act (Unit {0}))
      → Leads act
      → Leads other
      → Leads (if b then act else other)
  Leads-if true act other f g = f
  Leads-if false act other f g = g

module _ (system : System) (json : Json) (machine action : String) where
  abbrev Saw : Trace → Type 0
  Saw = SawRunning system json machine

  handle_status-Leads :
      (left start_attempts : ℕ) (more : ℕ → String → Act (Unit {0}))
      (status : Result PodmanMachineStatus) (u : Trace)
      → ((n : ℕ) (text : String) → Leads Saw (more n text))
      → (status ≡ ok running → Saw u)
      → (handle_status system json machine action left start_attempts more status u).0 ≡ ok tt
      → Saw (handle_status system json machine action left start_attempts more status u).1
  unfolding handle_status lift
  handle_status-Leads left n more (ok running) u f seen h = seen refl
  handle_status-Leads left n more (ok stopped) u f seen h =
      Leads-if Saw (ltb n 2 && ltb 0 left) _ _
        (Leads-then Saw
          (run_machine_with system json ("machine" ∷ "start" ∷ machine ∷ []) machine action) _
          (Leads-then Saw (pause system json left) _ (f _ _)))
        (Leads-then Saw (pause system json left) _ (f _ _)) u h
  handle_status-Leads left n more (ok (degraded text)) u f seen h =
      Leads-then Saw (pause system json left) _ (f n text) u h
  handle_status-Leads left n more (err e) u f seen h =
      Leads-then Saw (pause system json left) _ (f n e.message) u h

  await_ready-Leads :
      (left start_attempts : ℕ) (text : String)
      → Leads Saw (await_ready system json left machine action start_attempts text)
  unfolding await_ready inspect lift
  await_ready-Leads zero n text t h = cc
  await_ready-Leads (suc left) n text t h =
      handle_status-Leads left n _ (status_with system json machine t).0
        (status_with system json machine t).1 (await_ready-Leads left)
        (status_with-SawRunning system json machine t) h

  -- Where the start of a machine succeeds, the last two things it did were `podman machine inspect`, which
  -- succeeded with an output that says that the machine runs, and `podman info` over the connection of
  -- the machine, the one for root where the output says that it is rootful, which succeeded.
  pub start_with-SawRunning :
      (t : Trace)
      → (start_with system json machine action t).0 ≡ ok tt
      → SawRunning system json machine (start_with system json machine action t).1
  unfolding start_with
  start_with-SawRunning t h =
      Leads-then Saw
        (run_machine_with system json ("machine" ∷ "start" ∷ machine ∷ []) machine action) _
        (await_ready-Leads 15 1 "Podman readiness was not checked") t h

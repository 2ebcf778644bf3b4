-- ===== src/Adapters/Machine/Bounds.antt =====
-- How often the start of a machine runs `podman` and sleeps (crates/infractl-adapters/src/lib.rs).
use btc_infra_tools.Base.{
  ℕ, zero, suc, ◌+◌, ◌-◌, ◌≤◌, ◌≡◌, refl, List, [], ◌∷◌, String, Bool, true, false, ◌&&◌, ◌==◌,
  arith, count_if, ltb, if◌then◌else◌,
}
use btc_infra_tools.Base.Result.{Result, ok, err}
use btc_infra_tools.Adapters.World.{
  Output, Event, ran, slept, Trace, System, Json, Act, continue, ◌>>=◌, ◌>>◌, lift, inspect,
  thread_sleep, command,
}
use btc_infra_tools.Adapters.Inspection.{PodmanMachineInspection}
use btc_infra_tools.Adapters.Machine.{
  PodmanMachineStatus, running, stopped, degraded, run_podman, run_machine_with, probe_api,
  status_with, pause, handle_status, await_ready, start_with,
}

-- A run of `podman machine` with this command.
abbrev pub is_machine_command : String → Event → Bool
is_machine_command word (ran program (first_arg ∷ second ∷ rest) r) =
    first_arg == "machine" && second == word
is_machine_command word _ = false

abbrev pub is_sleep : Event → Bool
is_sleep (slept seconds) = true
is_sleep _ = false

abbrev pub starts : Trace → ℕ
starts t = count_if (is_machine_command "start") t

abbrev pub checks : Trace → ℕ
checks t = count_if (is_machine_command "inspect") t

abbrev pub sleeps : Trace → ℕ
sleeps t = count_if is_sleep t

-- An action adds at most so many starts, checks and sleeps.
record Adds {A : Type 0} (act : Act A) (s c p : ℕ) : Type 0 where
  pub bound :
      (t : Trace)
      → (starts (act t).1 ≤ starts t + s)
        × (checks (act t).1 ≤ checks t + c)
        × (sleeps (act t).1 ≤ sleeps t + p)

module _ {A B : Type 0} (s c p : ℕ) {s' c' p' : ℕ} where
  after_continue :
      (next : A → Act B) (t : Trace) (outcome : Result A × Trace)
      → (starts outcome.1 ≤ starts t + s)
        × (checks outcome.1 ≤ checks t + c)
        × (sleeps outcome.1 ≤ sleeps t + p)
      → ((a : A) → Adds (next a) s' c' p')
      → (starts (continue outcome next).1 ≤ starts t + (s + s'))
        × (checks (continue outcome next).1 ≤ checks t + (c + c'))
        × (sleeps (continue outcome next).1 ≤ sleeps t + (p + p'))
  after_continue next t (err e, u) (x, y, z) f =
      (omega (arith, x), omega (arith, y), omega (arith, z))
  after_continue next t (ok a, u) (x, y, z) f =
      let (x', y', z') = (f a).bound u in
      (omega (arith, x, x'), omega (arith, y, y'), omega (arith, z, z'))

  Adds-bind :
      (act : Act A) (next : A → Act B)
      → Adds act s c p
      → ((a : A) → Adds (next a) s' c' p')
      → Adds (act >>= next) (s + s') (c + c') (p + p')
  unfolding ◌>>=◌
  Adds-bind act next g f = record { bound = λ t. after_continue next t (act t) (g.bound t) f }

  Adds-inspect :
      (act : Act A) (next : Result A → Act B)
      → Adds act s c p
      → ((r : Result A) → Adds (next r) s' c' p')
      → Adds (inspect act next) (s + s') (c + c') (p + p')
  unfolding inspect
  Adds-inspect act next g f = record {
    bound = λ t.
        let (x, y, z) = g.bound t in
        let (x', y', z') = (f (act t).0).bound (act t).1 in
        (omega (arith, x, x'), omega (arith, y, y'), omega (arith, z, z'));
  }

module _ {A : Type 0} where
  Adds-if :
      (b : Bool) (act other : Act A) {s c p : ℕ}
      → (b ≡ true → Adds act s c p)
      → (b ≡ false → Adds other s c p)
      → Adds (if b then act else other) s c p
  Adds-if true act other f g = f refl
  Adds-if false act other f g = g refl

  Adds-lift : (r : Result A) → Adds (lift r) 0 0 0
  unfolding lift
  Adds-lift r = record { bound = λ t. (omega arith, omega arith, omega arith) }

  -- Greater bounds hold too.
  Adds-weaken :
      (act : Act A) {s c p s' c' p' : ℕ}
      → Adds act s c p
      → s ≤ s'
      → c ≤ c'
      → p ≤ p'
      → Adds act s' c' p'
  Adds-weaken act f hs hc hp = record {
    bound = λ t.
        let (x, y, z) = f.bound t in
        (omega (arith, x, hs), omega (arith, y, hc), omega (arith, z, hp));
  }

module _ (system : System) (json : Json) (machine action : String) where
  command-Adds :
      (args : List String) (s c : ℕ)
      → ((r : Result Output)
          → (starts (ran "podman" args r ∷ []) ≤ s) × (checks (ran "podman" args r ∷ []) ≤ c))
      → Adds (run_podman system args) s c 0
  unfolding run_podman command
  command-Adds args s c h =
      Adds-weaken (run_podman system args)
        (Adds-bind s c 0 (command system "podman" args) _
          (record {
            bound = λ t.
                let (x, y) = h (system.output t "podman" args) in
                (ground (arith, x), ground (arith, y), omega arith);
          })
          (λ output. Adds-lift _))
        (omega arith) (omega arith) (omega arith)

  start-Adds :
      Adds (run_machine_with system json ("machine" ∷ "start" ∷ machine ∷ []) machine action) 1 0 0
  unfolding run_machine_with
  start-Adds =
      Adds-weaken (run_machine_with system json ("machine" ∷ "start" ∷ machine ∷ []) machine action)
        (Adds-bind 1 0 0 (run_podman system ("machine" ∷ "start" ∷ machine ∷ [])) _
          (command-Adds _ 1 0 (λ r. (omega arith, omega arith)))
          (λ output. Adds-if output.success _ _ (λ _. Adds-lift _) (λ _. Adds-lift _)))
        (omega arith) (omega arith) (omega arith)

  api-Adds :
      (inspection : PodmanMachineInspection) → Adds (probe_api system json machine inspection) 0 0 0
  unfolding probe_api
  api-Adds inspection =
      Adds-if inspection.running _ _
        (λ _.
          Adds-weaken _
            (Adds-bind 0 0 0 _ _ (command-Adds _ 0 0 (λ r. (omega arith, omega arith)))
              (λ output. Adds-if output.success _ _ (λ _. Adds-lift _) (λ _. Adds-lift _)))
            (omega arith) (omega arith) (omega arith))
        (λ _. Adds-lift _)

  status-Adds : Adds (status_with system json machine) 0 1 0
  unfolding status_with
  status-Adds =
      Adds-weaken (status_with system json machine)
        (Adds-bind 0 1 0 _ _ (command-Adds _ 0 1 (λ r. (omega arith, omega arith))) (λ output.
          Adds-if output.success _ _
            (λ _. Adds-bind 0 0 0 _ _ (Adds-lift _) (λ inspection. api-Adds inspection))
            (λ _. Adds-weaken _ (Adds-lift _) (omega arith) (omega arith) (omega arith))))
        (omega arith) (omega arith) (omega arith)

  abbrev pauses : ℕ → ℕ
  pauses zero = 0
  pauses (suc left) = 1

  pause-Adds : (left : ℕ) → Adds (pause system json left) 0 0 (pauses left)
  unfolding pause thread_sleep
  pause-Adds zero = Adds-lift _
  pause-Adds (suc left) =
      Adds-if (ltb 0 (suc left)) _ _
        (λ h. record { bound = λ t. (omega arith, omega arith, omega arith) })
        (λ _. Adds-weaken _ (Adds-lift _) (omega arith) (omega arith) (omega arith))

  -- A sleep and the rest of the loop.
  more-Adds :
      (left : ℕ) (next : Act (Unit {0})) {s c : ℕ}
      → Adds next s c (left - 1)
      → Adds (pause system json left >> next) s c left
  more-Adds left next f =
      Adds-weaken (pause system json left >> next)
        (Adds-bind 0 0 (pauses left) (pause system json left) _ (pause-Adds left) (λ _. f))
        (omega arith) (omega arith) (pauses-le left)
    where
      pauses-le : (left : ℕ) → pauses left + (left - 1) ≤ left
      pauses-le zero = omega arith
      pauses-le (suc left) = omega arith

  handle_status-Adds :
      (left n : ℕ) (more : ℕ → String → Act (Unit {0})) (status : Result PodmanMachineStatus)
      → ((n : ℕ) (text : String) → Adds (more n text) (2 - n) left (left - 1))
      → Adds (handle_status system json machine action left n more status) (2 - n) left left
  unfolding handle_status
  handle_status-Adds left n more (ok running) f =
      Adds-weaken _ (Adds-lift _) (omega arith) (omega arith) (omega arith)
  handle_status-Adds left n more (ok stopped) f =
      Adds-if (ltb n 2 && ltb 0 left) _ _
        (λ h.
          Adds-weaken _ (Adds-bind 1 0 0 _ _ start-Adds (λ _. more-Adds left _ (f (n + 1) _)))
            (ground (arith, h)) (omega arith) (omega arith))
        (λ _. more-Adds left _ (f n _))
  handle_status-Adds left n more (ok (degraded text)) f = more-Adds left _ (f n text)
  handle_status-Adds left n more (err e) f = more-Adds left _ (f n e.message)

  await_ready-Adds :
      (left n : ℕ) (text : String)
      → Adds (await_ready system json left machine action n text) (2 - n) left (left - 1)
  unfolding await_ready
  await_ready-Adds zero n text =
      Adds-weaken _ (Adds-lift _) (omega arith) (omega arith) (omega arith)
  await_ready-Adds (suc left) n text =
      Adds-weaken (await_ready system json (suc left) machine action n text)
        (Adds-inspect 0 1 0 (status_with system json machine) _ status-Adds
          (λ status. handle_status-Adds left n _ status (await_ready-Adds left)))
        (omega arith) (omega arith) (omega arith)

  start_with-Adds : Adds (start_with system json machine action) 2 15 14
  unfolding start_with
  start_with-Adds =
      Adds-weaken (start_with system json machine action)
        (Adds-bind 1 0 0 _ _ start-Adds (λ _. await_ready-Adds 15 1 _)) (omega arith) (omega arith)
        (omega arith)

  -- The start of a machine runs `podman machine start` at most twice, checks the machine at most 15
  -- times and sleeps at most 14 times, whatever the commands answer.
  pub start_with-bounds :
      (t : Trace)
      → (starts (start_with system json machine action t).1 ≤ starts t + 2)
        × (checks (start_with system json machine action t).1 ≤ checks t + 15)
        × (sleeps (start_with system json machine action t).1 ≤ sleeps t + 14)
  start_with-bounds t = start_with-Adds.bound t

-- ===== src/Watchdog/Process/Ends.antt =====
-- The loops of the watchdog's child processes and of its sleep end where the clock goes on
-- (crates/belter-watchdog/src/main.rs).
use btc_infra_tools.Base.{
  ℕ, zero, suc, ◌+◌, ◌^◌, ◌≤◌, ◌≡◌, refl, min, List, String, Bool, true, false, arith, is_empty,
  eqb, leb, ltb,
}
use btc_infra_tools.Watchdog.World.{
  Purpose, Signal, Trace, System, read_clock, spawned, polled, signalled, killed, collected,
  instant_now,
}
use btc_infra_tools.Watchdog.Process.{
  from_millis, collect, try_wait, send_signal, await_exit, terminate_child, poll_child,
  run_shell_command, sleep_until, sleep_until_shutdown,
}
use btc_infra_tools.Watchdog.Process.Clock.{
  reading, Ticks, Returns, Past, Ends, ends-return, ends-fail, ends-in_context, ends-perform,
  ends-attempt, ends-block_on, is_requested-Ends, thread_sleep-Ends, instant_now-Ends,
}
use btc_infra_tools.Watchdog.Rules.{
  leads-return, leads-perform, leads-out_of_fuel, leads-if, leads-option, leads-from, leads-to,
  leads-assume, leads-bind,
}

-- So many steps.
unfoldable pub steps : ℕ → ℕ → ℕ
steps zero step = 0
steps (suc k) step = step + steps k step

steps_mono : (j k step : ℕ) → j ≤ k → steps j step ≤ steps k step
unfolding steps
steps_mono zero k step h = omega arith
steps_mono (suc j) zero step h = absurd (omega (arith, h))
steps_mono (suc j) (suc k) step h = omega (arith, steps_mono j k step (omega (arith, h)))

-- The clock comes to the deadline in fewer steps than there is fuel.
unfoldable pub Room : ℕ → ℕ → ℕ → Trace → Type 0
unfolding steps
Room step deadline zero t = ⊥
Room step deadline (suc k) t = deadline ≤ reading t + steps k step

-- So it does after a step that was not the last.
Room-next :
    (step deadline now later : ℕ) (k : ℕ) (t : Trace)
    → deadline ≤ now + steps k step
    → ltb now deadline ≡ true
    → min deadline (now + step) ≤ later
    → Past later t
    → Room step deadline k t
unfolding Room steps
Room-next step deadline now later zero t f early g h = absurd (ground (arith, f, early))
Room-next step deadline now later (suc k) t f early g h = omega (arith, f, g, h)

Room-enough :
    (step duration rounds fuel now : ℕ) (t : Trace)
    → duration ≤ steps rounds step
    → rounds + 1 ≤ fuel
    → Past now t
    → Room step (now + duration) fuel t
unfolding Room
Room-enough step duration rounds zero now t short enough h = absurd (omega (arith, enough))
Room-enough step duration rounds (suc k) now t short enough h =
    omega (arith, short, h, steps_mono rounds k step (omega (arith, enough)))

second_is_40 : from_millis 1000 ≤ steps 40 (from_millis 25)
unfolding steps
second_is_40 = omega arith

module _ (system : System) (ticks : Ticks system) (returns : Returns system) where
  -- The reading of the clock at the begin of a round.
  abbrev Begun : ℕ → ℕ → ℕ → ℕ → ℕ → Trace → Type 0
  Begun b step deadline k now t = ((b ≤ now) × (deadline ≤ now + steps k step)) × Past now t

  begin-round :
      (b step deadline k : ℕ)
      → Ends
          (λ t. Past b t × Room step deadline (suc k) t)
          (instant_now system)
          (Begun b step deadline k)
  unfolding instant_now Room reading
  begin-round b step deadline k =
      leads-perform system.now read_clock
        (λ t h. ((omega (arith, h.0, ticks t), omega (arith, h.1, ticks t)), omega arith))

  late-Past :
      (now deadline : ℕ) (t : Trace) → ltb now deadline ≡ false → Past now t → Past deadline t
  late-Past now deadline t late h = ground (arith, late, h)

  -- The end of a sleep.
  abbrev Awake : ℕ → ℕ → Bool → Trace → Type 0
  Awake b deadline stopped t = Past b t × (stopped ≡ false → Past deadline t)

  sleep_until-Ends :
      (fuel deadline b : ℕ)
      → Ends
          (λ t. Past b t × Room (from_millis 100) deadline fuel t)
          (sleep_until system fuel deadline)
          (Awake b deadline)
  unfolding sleep_until Room
  sleep_until-Ends zero deadline b = leads-out_of_fuel (λ t h. h.1)
  sleep_until-Ends (suc k) deadline b =
      leads-bind (begin-round b (from_millis 100) deadline k) (λ now. leads-assume (λ from.
        leads-if (ltb now deadline)
          (λ early. leads-bind (is_requested-Ends now system) (λ requested.
            leads-if requested (λ _. leads-return true (λ t h. (omega (arith, h, from.0), λ q. cc)))
              (λ _. leads-bind (instant_now-Ends now system ticks) (λ again. leads-assume (λ passed.
                leads-bind (thread_sleep-Ends again system _) (λ done.
                  leads-from
                    (λ t h. (
                      omega (arith, h, from.0, passed),
                      Room-next _ deadline now _ k t from.1 early (omega (arith, passed)) h,
                    ))
                    (sleep_until-Ends k deadline b)))))))
          (λ late.
            leads-to
              (λ stopped t h. (omega (arith, h, from.0), λ q. late-Past now deadline t late h))
              (is_requested-Ends now system))))

  pub sleep_until_shutdown-Ends :
      (fuel duration rounds b : ℕ)
      → duration ≤ steps rounds (from_millis 100)
      → rounds + 1 ≤ fuel
      → Ends
          (Past b)
          (sleep_until_shutdown system fuel duration)
          (λ stopped t. Past b t × (stopped ≡ false → Past (b + duration) t))
  unfolding sleep_until_shutdown
  sleep_until_shutdown-Ends fuel duration rounds b short enough =
      leads-bind (instant_now-Ends b system ticks) (λ now. leads-assume (λ passed.
        leads-to (λ stopped t h. (omega (arith, h.0, passed), λ q. omega (arith, h.1 q, passed)))
          (leads-from (λ t h. (h, Room-enough _ duration rounds fuel now t short enough h))
            (sleep_until-Ends fuel (now + duration) now))))

  try_wait-Ends : (b child : ℕ) → Ends (Past b) (try_wait system child) (λ done. Past b)
  unfolding try_wait reading
  try_wait-Ends b child = ends-attempt b _ polled (λ r t. refl)

  send_signal-Ends :
      (b : ℕ) (signal : Signal) (message : String) (child : ℕ)
      → Ends (Past b) (send_signal system signal message child) (λ done. Past b)
  unfolding send_signal reading
  send_signal-Ends b signal message child =
      leads-bind (ends-perform b _ (signalled signal) (λ r t. refl)) (λ error.
        leads-option error (λ _. ends-return tt (λ t h. h))
          (λ code _.
            leads-if (eqb code 3) (λ _. ends-return tt (λ t h. h))
              (λ _. ends-in_context message (ends-fail _))))

  await_exit-Ends :
      (fuel deadline child b : ℕ)
      → Ends
          (λ t. Past b t × Room (from_millis 25) deadline fuel t)
          (await_exit system fuel deadline child)
          (λ done. Past b)
  unfolding await_exit Room
  await_exit-Ends zero deadline child b = leads-out_of_fuel (λ t h. h.1)
  await_exit-Ends (suc k) deadline child b =
      leads-bind (begin-round b (from_millis 25) deadline k) (λ now. leads-assume (λ from.
        leads-if (ltb now deadline)
          (λ early. leads-bind (try_wait-Ends now child) (λ done.
            leads-if done (λ _. ends-return true (λ t h. omega (arith, h, from.0)))
              (λ _. leads-bind (thread_sleep-Ends now system (from_millis 25)) (λ slept.
                leads-from
                  (λ t h. (
                    omega (arith, h, from.0),
                    Room-next _ deadline now _ k t from.1 early (omega arith) h,
                  ))
                  (await_exit-Ends k deadline child b)))))
          (λ late. ends-return false (λ t h. omega (arith, h, from.0)))))

  terminate_child-Ends :
      (fuel child b : ℕ)
      → 41 ≤ fuel
      → Ends (Past b) (terminate_child system fuel child) (λ done. Past b)
  unfolding terminate_child
  terminate_child-Ends fuel child b enough =
      leads-if (leb (2 ^ 31) child) (λ _. ends-in_context _ (ends-fail _))
        (λ _. leads-bind (send_signal-Ends b _ _ child) (λ sent.
          leads-bind (instant_now-Ends b system ticks) (λ now. leads-assume (λ passed.
            leads-bind
              (leads-from
                (λ t h. (h, Room-enough _ (from_millis 1000) 40 fuel now t second_is_40 enough h))
                (await_exit-Ends fuel (now + from_millis 1000) child now))
              (λ done.
                leads-from (λ t h. omega (arith, h, passed))
                  (leads-if done (λ _. ends-return tt (λ t h. h))
                    (λ _. send_signal-Ends b _ _ child)))))))

  collect-Ends :
      (b : ℕ) (timed_out : Bool) (child : ℕ)
      → Ends (Past b) (collect system timed_out child) (λ output. Past b)
  unfolding collect reading
  collect-Ends b timed_out child =
      leads-bind (ends-block_on b _ (collected timed_out) (λ t. returns t child) (λ r t. refl))
        (λ output. ends-return _ (λ t h. h))

  collect_after-Ends :
      (b now : ℕ) (timed_out : Bool) (child : ℕ)
      → b ≤ now
      → Ends (Past now) (collect system timed_out child) (λ output. Past b)
  collect_after-Ends b now timed_out child passed =
      leads-to (λ output t h. omega (arith, h, passed)) (collect-Ends now timed_out child)

  -- Another round after a sleep.
  polls-on :
      (k fuel deadline b now : ℕ)
      → k + 42 ≤ suc fuel
      → deadline ≤ b + steps k (from_millis 100)
      → b ≤ now
      → leb deadline now ≡ false
      → (j : ℕ) × (j + 42 ≤ fuel) × (deadline ≤ (now + from_millis 100) + steps j (from_millis 100))
  unfolding steps
  polls-on zero fuel deadline b now enough near passed early =
      absurd (ground (arith, near, passed, early))
  polls-on (suc j) fuel deadline b now enough near passed early =
      (j, omega (arith, enough), omega (arith, near, passed))

  poll_child-Ends :
      (fuel deadline child b k : ℕ)
      → k + 42 ≤ fuel
      → deadline ≤ b + steps k (from_millis 100)
      → Ends (Past b) (poll_child system fuel deadline child) (λ output. Past b)
  unfolding poll_child reading
  poll_child-Ends zero deadline child b k enough near = absurd (omega (arith, enough))
  poll_child-Ends (suc fuel) deadline child b k enough near =
      leads-bind (is_requested-Ends b system) (λ requested.
        leads-if requested
          (λ _.
            leads-bind (terminate_child-Ends fuel child b (omega (arith, enough)))
              (λ done. collect-Ends b false child))
          (λ _. leads-bind (try_wait-Ends b child) (λ done.
            leads-if done (λ _. collect-Ends b false child)
              (λ _. leads-bind (instant_now-Ends b system ticks) (λ now. leads-assume (λ passed.
                leads-if (leb deadline now)
                  (λ late.
                    leads-bind (ends-perform now _ (λ _. killed) (λ r t. refl))
                      (λ done. collect_after-Ends b now true child passed))
                  (λ early. leads-bind (thread_sleep-Ends now system (from_millis 100)) (λ slept.
                    let (j, enough_left, nearer) =
                      polls-on k fuel deadline b now enough near passed early in
                    leads-to (λ output t h. omega (arith, h, passed))
                      (poll_child-Ends fuel deadline child (now + from_millis 100) j enough_left
                        nearer)))))))))

  pub run_shell_command-Ends :
      (fuel : ℕ) (purpose : Purpose) (shell : List String) (command : String) (timeout rounds b : ℕ)
      → timeout ≤ steps rounds (from_millis 100)
      → rounds + 42 ≤ fuel
      → Ends
          (Past b)
          (run_shell_command system fuel purpose shell command timeout)
          (λ output. Past b)
  unfolding run_shell_command reading
  run_shell_command-Ends fuel purpose shell command timeout rounds b short enough =
      leads-if (is_empty shell) (λ _. ends-fail _)
        (λ _.
          leads-bind (ends-in_context _ (ends-attempt b _ (spawned purpose command) (λ r t. refl)))
            (λ child. leads-bind (instant_now-Ends b system ticks) (λ now. leads-assume (λ passed.
              leads-to (λ output t h. omega (arith, h, passed))
                (poll_child-Ends fuel (now + timeout) child now rounds enough
                  (omega (arith, short)))))))

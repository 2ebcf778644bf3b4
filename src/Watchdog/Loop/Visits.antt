-- ===== src/Watchdog/Loop/Visits.antt =====
-- A pass of the watchdog over its watches is a run of the scheduler
-- (crates/belter-watchdog/src/main.rs).
use mathlib.Core.List.{Memᴰ}
use btc_infra_tools.Base.{
  ℕ, ◌+◌, min, ◌≡◌, refl, ◌∙◌, Option, none, some, List, [], ◌∷◌, Bool, true, false, ◌||◌, arith,
  All, String, leb, if◌then◌else◌,
}
use btc_infra_tools.Base.Result.{Error, ok, err}
use btc_infra_tools.Base.Fuel.{Fueled}
use btc_infra_tools.Watchdog.Config.{WatchConfig, WatchdogConfig, EffectiveWatch, effective_watch}
use btc_infra_tools.Watchdog.Json.{Json}
use btc_infra_tools.Watchdog.World.{Trace, System, Act, read_clock, seen_set, instant_now}
use btc_infra_tools.Watchdog.Cycle.{run_watch_cycle}
use btc_infra_tools.Watchdog.Cycle.Phase.{initial}
use btc_infra_tools.Watchdog.Cycle.Triple.{After, observe-stopped}
use btc_infra_tools.Watchdog.Cycle.Stages.{Paced, run_watch_cycle-triple}
use btc_infra_tools.Watchdog.Rules.{
  Reaches, Leads, leads-return, leads-lift, leads-perform, leads-if, leads-option, leads-cases,
  leads-from, leads-assume, leads-bind, leads-catch,
}
use btc_infra_tools.Watchdog.Loop.{
  WatchStates, state_of, waits_until, enabled_watches, delay_of, unless_requested, run_due,
  visit_watch, visit_watches,
}
use btc_infra_tools.Watchdog.Loop.Schedule.{is_quiet, is_due, Schedule, quiet, cycle, next}
use btc_infra_tools.Watchdog.Loop.Quiet.{
  Closed, is_requested-tells, log_error-Stays, log_shutdown-Stays,
}
use btc_infra_tools.Watchdog.Loop.Readings.{
  reads_late-cons, reads_late-append, seen_or-cons, waits_until-none, Seen,
}

module _ (json : Json) (config : WatchdogConfig) (start : Trace) (system : System) (fuel : ℕ) where
  abbrev pub Enabled : WatchConfig → Type 0
  Enabled w = Memᴰ w config.watch × (w.enabled ≡ true)

  kept :
      (w : WatchConfig) (b : Bool) (ws : List WatchConfig)
      → w.enabled ≡ b
      → Memᴰ w config.watch
      → All Enabled ws
      → All Enabled (if b then w ∷ ws else ws)
  kept w true ws e m rest = ((m, e), rest)
  kept w false ws e m rest = rest

  pub enabled_watches-Enabled :
      (ws : List WatchConfig)
      → ((w : WatchConfig) → Memᴰ w ws → Memᴰ w config.watch)
      → All Enabled (enabled_watches ws)
  unfolding enabled_watches
  enabled_watches-Enabled [] f = tt
  enabled_watches-Enabled (w ∷ ws) f =
      let rest = enabled_watches-Enabled ws (λ v m. f v (Memᴰ.tail m)) in
      kept w w.enabled (enabled_watches ws) refl (f w (Memᴰ.head refl)) rest

  -- The trace is a run of the scheduler.
  unfoldable pub Runs : Trace → Type 0
  Runs t =
      (owed : Option (String × ℕ)) × (states : WatchStates) × Schedule json config start system fuel
        owed states t

  -- So it is with these states, in a pass that began at this moment.
  unfoldable pub Known : ℕ → Option (String × ℕ) → WatchStates → Trace → Type 0
  Known now owed states t = Schedule json config start system fuel owed states t × Seen now t

  Known-closed :
      (now : ℕ) (owed : Option (String × ℕ)) (states : WatchStates) → Closed (Known now owed states)
  unfolding Known Seen
  Known-closed now owed states e t q (s, seen) =
      (quiet e q s, λ due h. reads_late-cons due e t (seen due h))

  pub Known-Runs :
      (now : ℕ) (owed : Option (String × ℕ)) (states : WatchStates) (t : Trace)
      → Known now owed states t
      → Runs t
  unfolding Known Runs
  Known-Runs now owed states t h = (owed, states, h.0)

  -- What a pass leaves: the states that it went on with, or the end of the function.
  abbrev pub Passed : ℕ → Option (WatchStates × ℕ) → Trace → Type 0
  Passed now none t = Runs t
  Passed now (some (states, due)) t = Known now none states t

  module _ (once : Bool) where
    pub unless_requested-leads :
        {A : Type 0} {R : Trace → Type 0} (Q : Option A → Trace → Type 0) {rest : Act (Option A)}
        → Closed R
        → ((t : Trace) → R t → Runs t)
        → ((t : Trace) → R t → Q none t)
        → Leads Runs (λ e. Runs) (λ t. R t × (seen_set t ≡ false)) rest Q
        → Leads Runs (λ e. Runs) R (unless_requested system json fuel config once rest) Q
    unless_requested-leads {A} {R} Q closed out none_of f =
        leads-bind (is_requested-tells system Runs R closed out) (λ requested.
          leads-if requested
            (λ e.
              leads-from (λ t h. h.0)
                (leads-bind (log_shutdown-Stays system Runs R closed out)
                  (λ _. leads-return none none_of)))
            (λ e. leads-from (λ t h. (h.0, rw (← e) h.1)) f))

    module _ (now : ℕ) (watch : WatchConfig) (effective : EffectiveWatch) (states : WatchStates)
        (enabled : Enabled watch) (found : effective_watch config watch ≡ ok effective) where
      abbrev Ready : Trace → Type 0
      Ready t = Known now none states t × (seen_set t ≡ false) × (is_due watch.name states t ≡ true)

      abbrev owed : Option (String × ℕ)
      owed = some (watch.name, effective.interval)

      -- A delay of less than the interval only after a shutdown was seen.
      abbrev Delayed : ℕ → Trace → Type 0
      Delayed delay t =
          Known now owed states t × ((seen_set t || leb effective.interval delay) ≡ true)

      after-Known :
          {outcome : Fueled ℕ × Trace} {t : Trace}
          → (run_watch_cycle system json fuel effective t).1 ≡ outcome.1
          → Ready t
          → After json effective outcome t
              (initial json effective t)
              (Paced system json fuel effective)
          → Known now owed states outcome.1
      unfolding Known Seen
      after-Known {outcome} {t} ran ((s, seen), unseen, due) done = rw done.grows (
        cycle watch effective done.added enabled.0 enabled.1 found unseen due (ran ∙ done.grows)
            done.stays_legal s,
        λ at h. reads_late-append at done.added t (seen at h),
      )

      after-Reaches :
          (E : Error → Trace → Type 0) (outcome : Fueled ℕ × Trace) {t : Trace}
          → ((e : Error) (u : Trace) → Known now owed states u → E e u)
          → (run_watch_cycle system json fuel effective t).1 ≡ outcome.1
          → Ready t
          → After json effective outcome t
              (initial json effective t)
              (Paced system json fuel effective)
          → Reaches Runs E Delayed outcome
      after-Reaches E (none, u) fails ran h done =
          Known-Runs now owed states u (after-Known ran h done)
      after-Reaches E (some (err e), u) fails ran h done = fails e u (after-Known ran h done)
      after-Reaches E (some (ok delay), u) {t} fails ran h done = (
        after-Known ran h done,
        let stopped = observe-stopped json effective done.added t (initial json effective t) refl in
            let paced = done.post delay refl in rw (done.grows, ← stopped) paced,
      )

      cycle-leads :
          (E : Error → Trace → Type 0)
          → ((e : Error) (u : Trace) → Known now owed states u → E e u)
          → Leads Runs E Ready (run_watch_cycle system json fuel effective) Delayed
      cycle-leads E fails = record {
        run = λ t h. after-Reaches E (run_watch_cycle system json fuel effective t) fails refl h (
            (run_watch_cycle-triple system json fuel effective).run t (initial json effective t)
              refl refl (refl, refl));
      }

      delay_of-leads :
          Leads Runs (λ e. Runs) Ready (delay_of system json fuel config once effective) Delayed
      unfolding delay_of
      delay_of-leads =
          leads-if once (λ _. cycle-leads (λ e. Runs) (λ e. Known-Runs now owed states))
            (λ _. leads-catch (cycle-leads (λ e. Known now owed states) (λ e u h. h)) (λ e.
              leads-bind
                (log_error-Stays system Runs (Known now owed states) (Known-closed now owed states)
                  (Known-Runs now owed states) _ _ _)
                (λ _. leads-return _ (λ t h. (h, ground arith)))))

      Delayed-closed : (delay : ℕ) → Closed (Delayed delay)
      Delayed-closed delay e t q (k, h) =
          (Known-closed now owed states e t q k, seen_or-cons (leb effective.interval delay) e t h)

      next-Passed :
          (at delay due : ℕ) (t : Trace)
          → Delayed delay (read_clock at ∷ t)
          → seen_set t ≡ false
          → Passed now
              (some (((watch.name, record { next_check = some (at + delay) }) ∷ states, due)))
              (read_clock at ∷ t)
      unfolding Known seen_set
      next-Passed at delay due t ((s, seen), paced) unseen =
          (next at delay (ground (arith, paced, unseen)) s, seen)

      run_due-leads :
          (next_due : ℕ)
          → Leads Runs
              (λ e. Runs)
              Ready
              (run_due system json fuel config once watch effective states next_due)
              (Passed now)
      unfolding run_due instant_now is_quiet
      run_due-leads next_due = leads-bind delay_of-leads (λ delay.
          unless_requested-leads (Passed now) (Delayed-closed delay)
            (λ t h. Known-Runs now owed states t h.0) (λ t h. Known-Runs now owed states t h.0)
            (leads-bind
              {Q = λ at t.
                Delayed delay t
                × Passed now
                    (some (
                      (watch.name, record { next_check = some (at + delay) }) ∷ states,
                      min next_due (at + delay),
                    ))
                    t}
              (leads-perform system.now read_clock (λ t h.
                let d = Delayed-closed delay (read_clock (system.now t)) t refl h.0 in
                (
                  d,
                  next-Passed (system.now t) delay (min next_due (system.now t + delay)) t d h.1,
                )))
              (λ at. leads-return _ (λ t h. h.1))))

    visit_watch-leads :
        (now : ℕ) (watch : WatchConfig) (states : WatchStates) (next_due : ℕ)
        → Enabled watch
        → Leads Runs
            (λ e. Runs)
            (Known now none states)
            (visit_watch system json fuel config once now watch states next_due)
            (Passed now)
    unfolding visit_watch is_due Known
    visit_watch-leads now watch states next_due enabled =
        unless_requested-leads (Passed now) (Known-closed now none states)
          (Known-Runs now none states) (Known-Runs now none states)
          (leads-bind
            (leads-lift (effective_watch config watch) (λ t h a e. (e, h))
              (λ t h e q. Known-Runs now none states t h.0))
            (λ effective. leads-assume (λ found.
              leads-option (waits_until now (state_of watch.name states))
                (λ w.
                  leads-from (λ t h. (h.0, h.1, waits_until-none now _ t h.0.1 w))
                    (run_due-leads now watch effective states enabled found next_due))
                (λ due w. leads-return _ (λ t h. h.0)))))

    pub visit_watches-leads :
        (now : ℕ) (watches : List WatchConfig) (states : WatchStates) (next_due : ℕ)
        → All Enabled watches
        → Leads Runs
            (λ e. Runs)
            (Known now none states)
            (visit_watches system json fuel config once now watches states next_due)
            (Passed now)
    unfolding visit_watches
    visit_watches-leads now [] states next_due enabled = leads-return _ (λ t h. h)
    visit_watches-leads now (watch ∷ watches) states next_due (first, rest) =
        leads-bind (visit_watch-leads now watch states next_due first) (λ passed.
          leads-cases (Passed now) passed (leads-return none (λ t h. h))
            (λ found. visit_watches-leads now watches found.0 found.1 rest))

-- ===== src/Watchdog/Process/Waits.antt =====
-- A sleep that no shutdown cuts short lasts to its deadline (crates/belter-watchdog/src/main.rs).
use btc_infra_tools.Base.{
  ℕ, zero, suc, ◌+◌, ◌≡◌, refl, some, [], ◌∷◌, Bool, true, false, ◌||◌, arith, leb, ltb,
  if◌then◌else◌,
}
use btc_infra_tools.Base.Result.{ok}
use btc_infra_tools.Watchdog.World.{
  Trace, System, Act, ◌>>◌, asked_shutdown, read_clock, slept, seen_set, ◌>>=◌, return, perform,
  out_of_fuel, is_requested, instant_now, thread_sleep,
}
use btc_infra_tools.Watchdog.Process.{sleep_until, sleep_until_shutdown}

-- The clock was read at or after this moment.
abbrev pub reads_late : ℕ → Trace → Bool
reads_late deadline [] = false
reads_late deadline (read_clock n ∷ t) = leb deadline n || reads_late deadline t
reads_late deadline (_ ∷ t) = reads_late deadline t

module _ (system : System) (deadline : ℕ) where
  -- Where an action tells from this trace on that no shutdown was requested, the clock was read at the
  -- deadline or later, and the shutdown token was not seen set.
  abbrev Lasts : Act Bool → Trace → Type 0
  Lasts act t =
      (act t).0 ≡ some (ok false)
      → (reads_late deadline (act t).1 ≡ true) × (seen_set (act t).1 ≡ false)

  Lasts-instant_now :
      (next : ℕ → Act Bool) (t : Trace)
      → Lasts (next (system.now t)) (read_clock (system.now t) ∷ t)
      → Lasts (instant_now system >>= next) t
  unfolding instant_now perform ◌>>=◌
  Lasts-instant_now next t f = f

  Lasts-thread_sleep :
      (duration : ℕ) (next : Act Bool) (t : Trace)
      → Lasts next (slept duration ∷ t)
      → Lasts (thread_sleep system duration >> next) t
  unfolding thread_sleep perform ◌>>=◌
  Lasts-thread_sleep duration next t f = f

  Lasts-is_requested :
      (next : Bool → Act Bool) (t : Trace)
      → ((b : Bool) → Lasts (next b) (asked_shutdown b ∷ t))
      → Lasts (is_requested system >>= next) t
  unfolding is_requested perform ◌>>=◌
  Lasts-is_requested next t f = f _

  -- The last question for the shutdown.
  Lasts-late :
      (now : ℕ) (t : Trace)
      → ltb now deadline ≡ false
      → Lasts (is_requested system) (read_clock now ∷ t)
  unfolding is_requested perform seen_set
  Lasts-late now t late h =
      let q : (seen_set t || system.signal_came (read_clock now ∷ t)) ≡ false = cc in
      (ground (arith, late), ground (arith, q))

  Lasts-if :
      (b : Bool) (act other : Act Bool) (t : Trace)
      → (b ≡ true → Lasts act t)
      → (b ≡ false → Lasts other t)
      → Lasts (if b then act else other) t
  Lasts-if true act other t f g = f refl
  Lasts-if false act other t f g = g refl

  Lasts-return : (t : Trace) → Lasts (return true) t
  unfolding return
  Lasts-return t h = cc

  sleep_until-Lasts : (fuel : ℕ) (t : Trace) → Lasts (sleep_until system fuel deadline) t
  unfolding sleep_until out_of_fuel
  sleep_until-Lasts zero t = λ h. cc
  sleep_until-Lasts (suc fuel) t = Lasts-instant_now _ t (
      Lasts-if (ltb (system.now t) deadline) _ _ _
        (λ _. Lasts-is_requested _ _ (λ requested.
          Lasts-if requested _ _ _ (λ _. Lasts-return _)
            (λ _. Lasts-instant_now _ _ (Lasts-thread_sleep _ _ _ (sleep_until-Lasts fuel _)))))
        (λ late. Lasts-late _ t late))

-- Where a sleep tells that no shutdown was requested, the clock was read at the end of its duration or
-- later, counted from the clock at its start, and the shutdown token was never seen set.
pub sleep_until_shutdown-lasts :
    (system : System) (fuel duration : ℕ) (t : Trace)
    → (sleep_until_shutdown system fuel duration t).0 ≡ some (ok false)
    → (reads_late (system.now t + duration) (sleep_until_shutdown system fuel duration t).1 ≡ true)
      × (seen_set (sleep_until_shutdown system fuel duration t).1 ≡ false)
unfolding sleep_until_shutdown
sleep_until_shutdown-lasts system fuel duration t =
    Lasts-instant_now system (system.now t + duration) _ t
      (sleep_until-Lasts system (system.now t + duration) fuel _)

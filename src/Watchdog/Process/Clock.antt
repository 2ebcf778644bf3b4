-- ===== src/Watchdog/Process/Clock.antt =====
-- A clock that goes on (crates/belter-watchdog/src/main.rs): what the actions of the watchdog do to the
-- moment that it has reached, and a rule for each way to build an action that ends.
use btc_infra_tools.Base.{ℕ, ◌+◌, ◌≤◌, ◌≡◌, refl, [], ◌∷◌, String, arith, ◌≢◌, none}
use btc_infra_tools.Base.Result.{Error, Result, ok}
use btc_infra_tools.Watchdog.World.{
  Event, Trace, System, Act, read_clock, slept, asked_shutdown, return, fail, in_context, perform,
  attempt, block_on, is_requested, instant_now, thread_sleep,
}
use btc_infra_tools.Watchdog.Rules.{
  Leads, leads-return, leads-fail, leads-perform, leads-attempt, leads-block_on, leads-in_context,
}
use btc_infra_tools.Base.Fuel.{Fueled}

-- The last reading of the clock, and what was slept since.
unfoldable pub reading : Trace → ℕ
reading [] = 0
reading (read_clock n ∷ t) = n
reading (slept d ∷ t) = reading t + d
reading (_ ∷ t) = reading t

-- The clock never goes back, and a sleep lasts as long as it was asked to.
abbrev pub Ticks : System → Type 0
Ticks system = (t : Trace) → reading t ≤ system.now t

-- Every child that ended or was killed lets go of its pipes, and so `wait_with_output` returns.
abbrev pub Returns : System → Type 0
Returns system = (t : Trace) (child : ℕ) → system.wait_with_output t child ≢ none

-- The clock has reached this moment.
abbrev pub Past : ℕ → Trace → Type 0
Past b t = b ≤ reading t

-- The fuel of the action is enough; from a moment that the clock has reached to one that it then has.
abbrev pub Ends : {A : Type 0} → (Trace → Type 0) → Act A → (A → Trace → Type 0) → Type 0
Ends P act Q = Leads (λ t. ⊥) (λ e t. Unit {0}) P act Q

-- The event is no reading of the clock and no sleep.
abbrev pub Silent : Event → Type 0
Silent e = (t : Trace) → reading (e ∷ t) ≡ reading t

module _ {A : Type 0} {P : Trace → Type 0} where
  pub ends-return :
      {Q : A → Trace → Type 0} (a : A) → ((t : Trace) → P t → Q a t) → Ends P (return a) Q
  ends-return a f = leads-return a f

  pub ends-fail : {Q : A → Trace → Type 0} (e : Error) → Ends P (fail e) Q
  ends-fail e = leads-fail e (λ t h. tt)

  pub ends-in_context :
      {Q : A → Trace → Type 0} (text : String) {act : Act A}
      → Ends P act Q
      → Ends P (in_context text act) Q
  ends-in_context text f = leads-in_context text (λ e e' t h. h) f

module _ (b : ℕ) where
  pub ends-perform :
      {A : Type 0} (answer : Trace → A) (event : A → Event)
      → ((a : A) → Silent (event a))
      → Ends (Past b) (perform answer event) (λ a. Past b)
  ends-perform answer event f = leads-perform answer event (λ t h. rw (f (answer t) t) h)

  pub ends-attempt :
      {A : Type 0} (answer : Trace → Result A) (event : Result A → Event)
      → ((a : Result A) → Silent (event a))
      → Ends (Past b) (attempt answer event) (λ a. Past b)
  ends-attempt answer event f =
      leads-attempt answer event (λ t h a e. rw (f (answer t) t) h) (λ t h a e. tt)

  pub ends-block_on :
      {A : Type 0} (answer : Trace → Fueled A) (event : Result A → Event)
      → ((t : Trace) → answer t ≢ none)
      → ((a : Result A) → Silent (event a))
      → Ends (Past b) (block_on answer event) (λ a. Past b)
  ends-block_on answer event there f =
      leads-block_on answer event (λ t h q. there t q) (λ t h a e. rw (f (ok a) t) h)
        (λ t h a e. tt)

  module _ (system : System) where
    pub is_requested-Ends : Ends (Past b) (is_requested system) (λ r. Past b)
    unfolding is_requested reading
    is_requested-Ends = ends-perform _ asked_shutdown (λ a t. refl)

    pub thread_sleep-Ends : (d : ℕ) → Ends (Past b) (thread_sleep system d) (λ r. Past (b + d))
    unfolding thread_sleep reading
    thread_sleep-Ends d = leads-perform _ _ (λ t h. omega (arith, h))

    pub instant_now-Ends :
        Ticks system → Ends (Past b) (instant_now system) (λ now t. (b ≤ now) × Past now t)
    unfolding instant_now reading
    instant_now-Ends ticks =
        leads-perform system.now read_clock (λ t h. (omega (arith, h, ticks t), omega arith))

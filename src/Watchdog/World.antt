-- ===== src/Watchdog/World.antt =====
-- What the watchdog asks of the operating system, and the actions that ask it
-- (crates/belter-watchdog/src/main.rs). An action goes from the trace of what has happened to its
-- result and the longer trace; the system may answer by the whole trace.
use btc_infra_tools.Base.{ℕ, Option, none, some, List, [], ◌∷◌, String, Bool, false, ◌||◌}
use btc_infra_tools.Base.Int.{ℤ}
use btc_infra_tools.Base.Result.{Error, Result, ok, err, context}
use btc_infra_tools.Base.Fuel.{Fueled}

-- What a shell command is run for.
pub data Purpose : Type 0 where
  admission diagnosis repair : Purpose

pub data Signal : Type 0 where
  sigterm sigkill : Signal

-- `std::process::Output`, with both streams decoded.
pub record Output : Type 0 where
  pub code : Option ℤ
  pub stdout : String
  pub stderr : String

-- One answer of the system. Times and durations are in nanoseconds.
pub data Event : Type 0 where
  asked_shutdown : Bool → Event
  read_clock : ℕ → Event
  slept : ℕ → Event
  spawned : (purpose : Purpose) (command : String) → Result ℕ → Event
  polled : Result Bool → Event
  signalled : Signal → Option ℕ → Event
  killed : Event
  collected : (timed_out : Bool) → Result Output → Event
  stamped : String → Event
  wrote : (to_stderr : Bool) (line : String) → Result (Unit {0}) → Event

-- The latest event first.
abbrev pub Trace : Type 0
Trace = List Event

-- The system's answers: whether a signal has set the shutdown token since it was last read, the
-- monotonic clock, `Command::spawn` with the process number, `try_wait`, `wait_with_output`, which
-- never returns where it gives `none`,
-- `killpg` with the error number, the text of an error number, the wall clock, and a written and flushed line.
pub record System : Type 0 where
  pub signal_came : Trace → Bool
  pub now : Trace → ℕ
  pub spawn : Trace → List String → String → Result ℕ
  pub try_wait : Trace → ℕ → Result Bool
  pub wait_with_output : Trace → ℕ → Fueled Output
  pub killpg : Trace → ℕ → Signal → Option ℕ
  pub os_error : ℕ → String
  pub now_utc_rfc3339 : Trace → String
  pub write_line : Trace → Bool → String → Result (Unit {0})

abbrev pub Act : Type 0 → Type 0
Act A = Trace → Fueled A × Trace

abbrev pub continue : {A B : Type 0} → Fueled A × Trace → (A → Act B) → Fueled B × Trace
continue (none, t) k = (none, t)
continue (some (err e), t) k = (some (err e), t)
continue (some (ok a), t) k = k a t

infixl 6 ◌>>=◌ ◌>>◌
unfoldable pub ◌>>=◌ : {A B : Type 0} → Act A → (A → Act B) → Act B
(act >>= k) t = continue (act t) k

abbrev pub ◌>>◌ : {B : Type 0} → Act (Unit {0}) → Act B → Act B
act >> then = act >>= λ _. then

unfoldable pub return : {A : Type 0} → A → Act A
return a t = (some (ok a), t)

unfoldable pub fail : {A : Type 0} → Error → Act A
fail e t = (some (err e), t)

unfoldable pub out_of_fuel : {A : Type 0} → Act A
out_of_fuel t = (none, t)

abbrev pub with_message : {A : Type 0} → String → Fueled A × Trace → Fueled A × Trace
with_message text (none, t) = (none, t)
with_message text (some r, t) = (some (context r text), t)

-- `with_context`
unfoldable pub in_context : {A : Type 0} → String → Act A → Act A
in_context text act t = with_message text (act t)

-- A result that is known without asking the system, and its `?`.
unfoldable pub lift : {A : Type 0} → Result A → Act A
lift r t = (some r, t)

abbrev pub handle : {A : Type 0} → Fueled A × Trace → (Error → Act A) → Fueled A × Trace
handle (none, t) k = (none, t)
handle (some (err e), t) k = k e t
handle (some (ok a), t) k = (some (ok a), t)

-- A `match` on the error of an action.
unfoldable pub catch : {A : Type 0} → Act A → (Error → Act A) → Act A
catch act k t = handle (act t) k

-- The system's answer, and the event that records it.
unfoldable pub perform : {A : Type 0} → (Trace → A) → (A → Event) → Act A
perform answer event t = let a = answer t in (some (ok a), event a ∷ t)

unfoldable pub attempt : {A : Type 0} → (Trace → Result A) → (Result A → Event) → Act A
attempt answer event t = let r = answer t in (some r, event r ∷ t)

abbrev pub returned : {A : Type 0} → Fueled A → (Result A → Event) → Trace → Fueled A × Trace
returned none event t = (none, t)
returned (some r) event t = (some r, event r ∷ t)

-- A call that may never return.
unfoldable pub block_on : {A : Type 0} → (Trace → Fueled A) → (Result A → Event) → Act A
block_on answer event t = returned (answer t) event t

-- The token was seen set. Nothing resets it.
unfoldable pub seen_set : Trace → Bool
seen_set [] = false
seen_set (asked_shutdown b ∷ t) = b || seen_set t
seen_set (_ ∷ t) = seen_set t

module _ (system : System) where
  unfoldable pub is_requested : Act Bool
  unfolding seen_set
  is_requested = perform (λ t. seen_set t || system.signal_came t) asked_shutdown

  unfoldable pub instant_now : Act ℕ
  instant_now = perform system.now read_clock

  unfoldable pub thread_sleep : ℕ → Act (Unit {0})
  thread_sleep duration = perform (λ t. tt) (λ _. slept duration)

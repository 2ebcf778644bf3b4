-- ===== src/Adapters/World.antt =====
-- The commands that the adapters run, what else the command line asks of the system, and the actions
-- that ask it (crates/infractl-adapters/src/lib.rs, crates/infractl-cli/src/commands/service.rs). An action goes from the trace of what has happened to its
-- result and the longer trace; the system may answer by the whole trace.
use btc_infra_tools.Base.{ℕ, Option, none, some, List, ◌∷◌, String, Bool}
use btc_infra_tools.Base.Int.{ℤ, show_ℤ}
use btc_infra_tools.Base.Text.{◌⧺◌}
use btc_infra_tools.Base.Result.{Result, ok, err}

-- `std::process::Output`, with both streams decoded.
pub record Output : Type 0 where
  pub success : Bool
  pub code : Option ℤ
  pub stdout : String
  pub stderr : String

pub data Event : Type 0 where
  ran : (program : String) (args : List String) → Result Output → Event
  slept : (seconds : ℕ) → Event
  -- An HTTP request and the first line of the response.
  exchanged : (host : String) (port : ℕ) (request : String) → Result String → Event
  -- The environment variables of a file, loaded into the process.
  loaded : (path : String) → Result (Unit {0}) → Event

-- The latest event first.
abbrev pub Trace : Type 0
Trace = List Event

-- `Command::output` of a program with its arguments, and the `Debug` output of an optional text.
pub record System : Type 0 where
  pub output : Trace → String → List String → Result Output
  pub debug_text : Option String → String

abbrev pub Act : Type 0 → Type 0
Act A = Trace → Result A × Trace

abbrev pub continue : {A B : Type 0} → Result A × Trace → (A → Act B) → Result B × Trace
continue (err e, t) k = (err e, t)
continue (ok a, t) k = k a t

infixl 6 ◌>>=◌ ◌>>◌
unfoldable pub ◌>>=◌ : {A B : Type 0} → Act A → (A → Act B) → Act B
(act >>= k) t = continue (act t) k

abbrev pub ◌>>◌ : {B : Type 0} → Act (Unit {0}) → Act B → Act B
act >> then = act >>= λ _. then

unfoldable pub lift : {A : Type 0} → Result A → Act A
lift r t = (r, t)

abbrev pub return : {A : Type 0} → A → Act A
return a = lift (ok a)

-- A `match` on the result of an action, instead of `?`.
abbrev pub run_on : {A B : Type 0} → Result A × Trace → (Result A → Act B) → Result B × Trace
run_on (r, t) k = k r t

unfoldable pub inspect : {A B : Type 0} → Act A → (Result A → Act B) → Act B
inspect act k t = run_on (act t) k

unfoldable pub thread_sleep : ℕ → Act (Unit {0})
thread_sleep seconds t = (ok tt, slept seconds ∷ t)

unfoldable pub command : System → String → List String → Act Output
command system program args t = let r = system.output t program args in (r, ran program args r ∷ t)

-- The `Debug` output of `Option<i32>`.
unfoldable pub debug_code : Option ℤ → String
debug_code none = "None"
debug_code (some code) = "Some(" ⧺ show_ℤ code ⧺ ")"

-- What the adapters use of `serde_json::Value`.
pub record Json : Type 1 where
  pub Value : Type 0
  pub from_str : String → Result Value
  pub as_array : Value → Option (List Value)
  pub get : Value → String → Option Value
  pub as_str : Value → Option String
  pub as_bool : Value → Option Bool

-- `Option::and_then`
abbrev pub and_then : {A B : Type 0} → Option A → (A → Option B) → Option B
and_then none f = none
and_then (some a) f = f a

-- ===== src/Lib.antt =====
-- btc-infra-tools starts, stops and watches the services of a Bitcoin node. The crates and the files
-- that model them:
--
--   crates/infractl-core      Core: the expansion of `${NAME:-default}` in configured texts (Core/Env),
--                             the configuration (Core/Config), plans (Core/Plan), and the plan of a
--                             service command (Core/Usecase)
--   crates/infractl-adapters  Adapters: `launchctl` (Adapters/Launchd), `podman compose`
--                             (Adapters/Compose), `podman machine` (Adapters/Machine, and what it reads,
--                             Adapters/Inspection), and the executors of plans (Adapters/Executor)
--   crates/infractl-cli       Cli: of src/commands/service.rs, the order in which a bring-up starts the
--                             dependencies of a service (Cli/Order), the states in which services run
--                             (Cli/Runtime), the plan of a bring-up (Cli/BringUp), the HTTP probes
--                             (Cli/Http) and the readiness of mempool (Cli/Readiness), environment files
--                             (Cli/Environment), the recovery of mempool (Cli/Recovery), the execution
--                             of commands and bring-ups (Cli/Execution), and the status of services
--                             (Cli/Snapshot, Cli/Status); of src/commands/config.rs, the checks of a
--                             configuration file (Cli/Validation); of src/commands/health.rs, the
--                             health report of a pool (Cli/Health)
--   crates/belter-watchdog    Watchdog: the configuration (Watchdog/Config), the judgement of a
--                             diagnosis (Watchdog/Json, Watchdog/Health), the log (Watchdog/Log,
--                             Watchdog/Events), child processes and sleeping (Watchdog/Process), a cycle
--                             of a watch (Watchdog/Cycle), the loop over the watches (Watchdog/Loop),
--                             and the statistics (Watchdog/Stats)
--
-- A command of the command line becomes a plan (`plan`), which the executor of Adapters runs. The
-- watchdog runs shell commands that its configuration names, which may be commands of `belter`.
--
-- Functions have the names that they have in the source. A `Result` of the crate anyhow is `Result`
-- (Base/Result), the value or the message with its causes. Code that asks the operating system is a
-- function from the trace of what has happened so far to its result and the longer trace
-- (Watchdog/World, Adapters/World). The system is a record of functions from the trace to an answer,
-- so that it may answer in every way, and nothing about it is assumed but what a theorem names.
-- `serde_json`, `time`, `f64`, the network and the environment of the process are records of functions
-- too: the environment after the environment files that a trace has loaded is a function of the trace.
-- Adapters/Rules and Watchdog/Rules are the rules by which the theorems reason about such functions. The
-- shutdown token is a latch: once it was seen set it stays so.
--
-- Rust's numbers are natural numbers, and integers where they are signed; durations of the watchdog are
-- in nanoseconds. A process number has 32 bits, and the tally of stabilisation checks wraps around at
-- 2^32. The sums of seconds in the statistics wrap around as `i64` does, as a release build's do. The
-- moments of the clock are not bounded.
--
-- Fuel: the visit of the dependencies runs on the number of services and one more, which is enough.
-- The loops of the watchdog, which wait for the clock, run on a fuel that is an argument; a result
-- `none` is the fuel running out, or a `wait_with_output` that never returns because a process in the
-- background keeps the pipes of the child open. The theorems about the cycle and the loop hold of these
-- runs too, and where the clock keeps ticking and `wait_with_output` returns, Watchdog/Cycle/Ends names
-- the fuel that is enough for a cycle. The loop over the watches ends only by a shutdown or an error, so
-- no fuel is enough for every system.
--
-- Not modelled: the lock and state files of the watchdog, the command line, the printing of reports and
-- the reading of files, the success rate of the statistics, which is a floating point number, and the
-- Python scripts of contrib/workload-handoff. A panic of the watchdog at its
-- `unreachable!` is an error with that message.
pub mod Base
pub mod Core
pub mod Adapters
pub mod Cli
pub mod Watchdog

-- ===== src/Watchdog/Cycle/Phase.antt =====
-- An observer of a cycle of a watch: what it has seen of the events, and which commands it accepts
-- (crates/belter-watchdog/src/main.rs). It knows nothing of the code of the cycle.
use btc_infra_tools.Base.{
  ℕ, suc, Option, none, some, [], ◌∷◌, String, Bool, true, false, not, ◌&&◌, ◌||◌, ◌==◌, is_some,
  unwrap_or, eqb, leb, if◌then◌else◌,
}
use btc_infra_tools.Base.Int.{pos}
use btc_infra_tools.Base.Result.{ok, err}
use btc_infra_tools.Watchdog.Config.{EffectiveWatch}
use btc_infra_tools.Watchdog.Json.{Json}
use btc_infra_tools.Watchdog.Health.{CommandOutput, has_code, evaluate_health}
use btc_infra_tools.Watchdog.World.{
  Purpose, admission, diagnosis, repair, Output, Event, Trace, asked_shutdown, read_clock, slept,
  spawned, polled, signalled, killed, collected, stamped, wrote, seen_set,
}
use btc_infra_tools.Watchdog.Cycle.{is_unhealthy}

-- Whether every command was acceptable, the last command was an admission that succeeded, and the
-- shutdown token was seen set; the unhealthy diagnoses in a row, the recovery commands, and the
-- command that is running.
pub record Phase : Type 0 where
  pub legal : Bool
  pub granted : Bool
  pub stopped : Bool
  pub unhealthy_checks : ℕ
  pub repairs : ℕ
  pub running : Option Purpose

module _ (json : Json) (watch : EffectiveWatch) where
  unfoldable pub command_of : Purpose → String
  command_of admission = unwrap_or watch.config.allow_command ""
  command_of diagnosis = watch.config.diagnose
  command_of repair = watch.config.recovery

  -- A watch without an admission command grants everything; a set shutdown token stops everything.
  unfoldable pub permitted : Phase → Bool
  permitted p = not p.stopped && (p.granted || not (is_some watch.config.allow_command))

  -- The unhealthy diagnoses in a row that a recovery command needs.
  unfoldable pub needed : ℕ
  needed = if eqb watch.confirm_after 0 then 1 else 2

  -- Whether a command may be run: a diagnosis right after an admission, the only recovery command
  -- right after one too, and after enough unhealthy diagnoses in a row.
  unfoldable pub accepts : Purpose → Phase → Bool
  unfolding permitted needed
  accepts admission p = true
  accepts diagnosis p = permitted p
  accepts repair p = permitted p && (eqb p.repairs 0 && leb needed p.unhealthy_checks)

  abbrev pub with_flag : Bool → Output → CommandOutput
  with_flag timed_out output = record {
    code = output.code;
    stdout = output.stdout;
    stderr = output.stderr;
    timed_out = timed_out;
  }

  unfoldable pub next_count : CommandOutput → ℕ → ℕ
  next_count output n = if is_unhealthy (evaluate_health json watch.config output) then suc n else 0

  abbrev pub ended_well : CommandOutput → Bool
  ended_well output = has_code output.code (pos 0) && not output.timed_out

  unfoldable pub conclude : Option Purpose → CommandOutput → Phase → Phase
  unfolding next_count
  conclude none output p = p
  conclude (some admission) output p = record p { granted = ended_well output }
  conclude (some diagnosis) output p = record p {
    unhealthy_checks = next_count output p.unhealthy_checks;
  }
  conclude (some repair) output p = p

  abbrev pub count_repair : Purpose → ℕ → ℕ
  count_repair repair n = suc n
  count_repair _ n = n

  unfoldable pub advance : Event → Phase → Phase
  unfolding accepts conclude command_of
  advance (asked_shutdown b) p = record p { stopped = p.stopped || b }
  advance (spawned purpose command r) p = record p {
    legal = p.legal && (command == command_of purpose && accepts purpose p);
    granted = false;
    repairs = count_repair purpose p.repairs;
    running = some purpose;
  }
  advance (collected timed_out (ok output)) p =
      record (conclude p.running (with_flag timed_out output) p) { running = none }
  advance (collected timed_out (err e)) p = record p { running = none }
  advance (read_clock n) p = p
  advance (slept n) p = p
  advance (polled r) p = p
  advance (signalled s r) p = p
  advance killed p = p
  advance (stamped s) p = p
  advance (wrote b s r) p = p

  -- The phase after these events, the latest of them first.
  unfoldable pub observe : Trace → Phase → Phase
  unfolding advance
  observe [] p = p
  observe (e ∷ es) p = advance e (observe es p)

  -- At the start of a cycle.
  abbrev pub initial : Trace → Phase
  initial t = record {
    legal = true;
    granted = false;
    stopped = seen_set t;
    unhealthy_checks = 0;
    repairs = 0;
    running = none;
  }

-- ===== src/Adapters/Launchd.antt =====
-- The adapter of `launchctl` (crates/infractl-adapters/src/lib.rs).
use Prim.Native.String.{[], ◌∷◌}
use mathlib.Core.List.{List}
use btc_infra_tools.Base.{
  ℕ, ◌*◌, ◌+◌, ◌-◌, ◌^◌, Option, none, some, String, Char, code, Bool, false, ◌&&◌, is_some, eqb,
  leb, ltb, if◌then◌else◌,
}
use btc_infra_tools.Base.Int.{ℤ, pos, negsuc}
use btc_infra_tools.Base.Text.{◌⧺◌, trim, strip_prefix, split_once}
use btc_infra_tools.Base.Result.{Result, bail}
use btc_infra_tools.Core.Plan.{ExecutionDetails, launchd_restart_pid_change}
use btc_infra_tools.Adapters.World.{System, Act, ◌>>=◌, ◌>>◌, lift, return, command, debug_code}

push_char : Char → List String → List String
push_char c List.[] = List.◌∷◌ (c ∷ "") List.[]
push_char c (List.◌∷◌ s ss) = List.◌∷◌ (c ∷ s) ss

abbrev starts_newline : String → Bool
starts_newline [] = false
starts_newline (c ∷ s) = eqb (code c) 10

-- `lines()`, which ends a line at `\n` or `\r\n`.
unfoldable pub split_lines : String → List String
unfolding push_char
split_lines [] = List.[]
split_lines (c ∷ s) =
    let rest = split_lines s in
    if eqb (code c) 10
    then List.◌∷◌ "" rest
    else if eqb (code c) 13 && starts_newline s
    then rest
    else push_char c rest

-- The digits of a number that is at most 2³¹.
digits : String → ℕ → Option ℕ
digits [] n = some n
digits (c ∷ s) n =
    let next = n * 10 + (code c - 48) in
    let rest = digits s next in
    if leb 48 (code c) && (leb (code c) 57 && leb next (2 ^ 31)) then rest else none

abbrev some_digits : String → Option ℕ
unfolding digits
some_digits [] = none
some_digits (c ∷ s) = digits (c ∷ s) 0

abbrev negated : Option ℕ → Option ℤ
negated none = none
negated (some n) = if eqb n 0 then some (pos 0) else some (negsuc (n - 1))

abbrev below_2_31 : Option ℕ → Option ℤ
below_2_31 none = none
below_2_31 (some n) = if ltb n (2 ^ 31) then some (pos n) else none

-- `parse::<i32>().ok()`
unfoldable pub parse_i32 : String → Option ℤ
unfolding digits
parse_i32 s = elim (strip_prefix s "-") [
  | some rest ↦ negated (some_digits rest)
  | none ↦ elim (strip_prefix s "+") [
    | some rest ↦ below_2_31 (some_digits rest)
    | none ↦ below_2_31 (some_digits s)
  ]
]

-- The closure that is given to `find_map`.
unfoldable pub line_pid : String → Option ℤ
line_pid line = elim (strip_prefix (trim line) "pid = ") [
  | none ↦ none
  | some value ↦ parse_i32 (trim value)
]

unfoldable pub find_pid : List String → Option ℤ
find_pid List.[] = none
find_pid (List.◌∷◌ line lines) = elim (line_pid line) [
  | some pid ↦ some pid
  | none ↦ find_pid lines
]

unfoldable pub parse_launchctl_pid : String → Option ℤ
parse_launchctl_pid printed = find_pid (split_lines printed)

-- `str::contains`
abbrev text_contains : String → String → Bool
text_contains s part = is_some (split_once s part)

module _ (system : System) where
  -- What `run_launchctl` makes of an exit that is not a success.
  unfoldable pub launchctl_failure :
      String → String → Option ℤ → String → String → Result (Unit {0})
  launchctl_failure unit action exit_code stdout stderr =
      if text_contains stderr "Unrecognized target specifier"
      then bail (
          "launchctl " ⧺ action ⧺ " failed for unit " ⧺ unit
          ⧺ ": invalid target specifier. Use full launchctl target format '<domain>/<label>' (example: 'system/com.bitcoind.node'). Raw error: "
          ⧺ stderr)
      else if text_contains stderr "Operation not permitted"
      then bail (
          "launchctl " ⧺ action ⧺ " failed for unit " ⧺ unit
          ⧺ ": insufficient privileges. For system domain units, run belter with elevated permissions (example: 'sudo -E belter service restart ...'). Raw error: "
          ⧺ stderr)
      else bail (
          "launchctl "
          ⧺ action
          ⧺ " failed for unit "
          ⧺ unit
          ⧺ " (status="
          ⧺ debug_code exit_code
          ⧺ ", stdout="
          ⧺ stdout
          ⧺ ", stderr="
          ⧺ stderr
          ⧺ ")")

  unfoldable pub run_launchctl : List String → String → String → Act (Unit {0})
  run_launchctl args unit action = command system "launchctl" args >>= λ output.
      if output.success
      then return tt
      else lift
          (launchctl_failure unit action output.code (trim output.stdout) (trim output.stderr))

  unfoldable pub unit_pid : String → Act (Option ℤ)
  unit_pid unit =
      command system "launchctl" (List.◌∷◌ "print" (List.◌∷◌ unit List.[])) >>= λ output.
      if output.success then return (parse_launchctl_pid output.stdout) else return none

  unfoldable pub start_unit : String → Act (Unit {0})
  start_unit unit = run_launchctl (List.◌∷◌ "bootstrap" (List.◌∷◌ unit List.[])) unit "start"

  unfoldable pub stop_unit : String → Act (Unit {0})
  stop_unit unit = run_launchctl (List.◌∷◌ "bootout" (List.◌∷◌ unit List.[])) unit "stop"

  unfoldable pub restart_unit : String → Act ExecutionDetails
  restart_unit unit = unit_pid unit >>= λ pid_before.
      run_launchctl (List.◌∷◌ "kickstart" (List.◌∷◌ "-k" (List.◌∷◌ unit List.[]))) unit "restart"
      >> (unit_pid unit >>= λ pid_after.
          return (launchd_restart_pid_change unit pid_before pid_after))

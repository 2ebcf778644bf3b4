-- ===== src/Adapters/Inspection.antt =====
-- What the adapter of `podman machine` reads from `podman machine inspect`
-- (crates/infractl-adapters/src/lib.rs).
use btc_infra_tools.Base.{
  ℕ, ◌+◌, String, code, Bool, true, false, ◌&&◌, first, unwrap_or, eqb, leb, if◌then◌else◌,
}
use btc_infra_tools.Base.Result.{Result, ok, ok_or, ◌>>=◌}
use btc_infra_tools.Adapters.World.{Json, and_then}

pub record PodmanMachineInspection : Type 0 where
  pub running : Bool
  pub rootful : Bool

-- `eq_ignore_ascii_case`
abbrev to_ascii_lowercase : ℕ → ℕ
to_ascii_lowercase n = if leb 65 n && leb n 90 then n + 32 else n

unfoldable pub eq_ignore_ascii_case : String → String → Bool
eq_ignore_ascii_case String.[] String.[] = true
eq_ignore_ascii_case (String.◌∷◌ c s) (String.◌∷◌ d t) =
    eqb (to_ascii_lowercase (code c)) (to_ascii_lowercase (code d)) && eq_ignore_ascii_case s t
eq_ignore_ascii_case _ _ = false

module _ (json : Json) where
  open json use {Value, from_str, as_array, get, as_str, as_bool}

  unfoldable pub inspection_of : Value → Result PodmanMachineInspection
  inspection_of machine =
      ok_or (and_then (get machine "State") as_str)
        "podman machine inspect output missing `State` field"
      >>= λ state. ok (record {
        running = eq_ignore_ascii_case state "running";
        rootful = unwrap_or (and_then (get machine "Rootful") as_bool) false;
      })

  unfoldable pub parse_podman_machine_inspection : String → Result PodmanMachineInspection
  parse_podman_machine_inspection output = from_str output >>= λ parsed.
      ok_or (and_then (as_array parsed) first) "podman machine inspect output is empty"
      >>= inspection_of

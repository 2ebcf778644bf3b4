-- ===== src/Cli/Health/Tests.antt =====
-- The theorem about the health report of a pool, at a pool that answers 200 without miners
-- (crates/infractl-cli/src/commands/health.rs).
use mathlib.Core.List.{[], ◌∷◌}
use btc_infra_tools.Base.{ℕ, ◌/◌, ◌≡◌, refl, none, String, arith, leb}
use btc_infra_tools.Base.Text.{show_ℕ}
use btc_infra_tools.Base.Result.{Result, ok}
use btc_infra_tools.Adapters.World.{Trace, exchanged}
use btc_infra_tools.Cli.Http.{Network}
use btc_infra_tools.Cli.Health.{Float, PoolInfoResponse, fetch_pool_info}
use btc_infra_tools.Cli.Health.Asked.{pool_url, get_request, Fetched, fetch_pool_info-Fetched}

-- Numbers without fractions.
abbrev whole_numbers : Float
whole_numbers = record {
  Number = ℕ;
  at_least = λ x n. leb n x;
  divided = λ x n. x / n;
  fixed = λ places x. show_ℕ x;
}

abbrev open_port : Network
open_port = record {
  connect = λ t host port. ok tt;
  set_read_timeout = λ t. ok tt;
  set_write_timeout = λ t. ok tt;
  write_all = λ t request. ok tt;
  read_line = λ t. ok "";
}

abbrev nothing_mined : String → Result (PoolInfoResponse whole_numbers)
nothing_mined body = ok (record { user_agents = []; high_scores = []; uptime = none })

abbrev served : Trace → Result String
served t = ok "HTTP/1.1 200 OK\r\n\r\n{}"

fetch_pool_info-Fetched_example :
    (response : Result String) × ((fetch_pool_info whole_numbers open_port served nothing_mined
        (pool_url "pool" 3334)
        []).1
      ≡ exchanged "pool" 3334 (get_request "pool" 3334) response ∷ [])
    × ((info : PoolInfoResponse whole_numbers)
        → (fetch_pool_info whole_numbers open_port served nothing_mined (pool_url "pool" 3334) []).0
          ≡ ok info
        → Fetched whole_numbers open_port served nothing_mined "pool" 3334 [] response info)
fetch_pool_info-Fetched_example =
    fetch_pool_info-Fetched "pool" 3334 (λ h. cc) (refl, (refl, (refl, (refl, tt))))
      (refl, (refl, (refl, (refl, tt)))) (omega arith) whole_numbers open_port served nothing_mined
      []

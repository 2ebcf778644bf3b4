-- ===== src/Cli/Readiness.antt =====
-- The readiness of mempool over HTTP (crates/infractl-cli/src/commands/service.rs). Delays are in
-- seconds.
pub mod Reached
pub mod Bounds
use btc_infra_tools.Base.{
  ℕ, zero, suc, ◌*◌, min, Option, none, some, List, [], ◌∷◌, String, eqb, unwrap_or, if◌then◌else◌,
}
use btc_infra_tools.Base.Text.{◌⧺◌}
use btc_infra_tools.Base.Result.{ok, err, bail}
use btc_infra_tools.Core.Env.{EnvResolver}
use btc_infra_tools.Adapters.World.{Act, ◌>>=◌, ◌>>◌, lift, return, inspect, thread_sleep}
use btc_infra_tools.Cli.Http.{HttpStatus, Network, probe_http_status, probe_http_200}
use btc_infra_tools.Cli.Runtime.{MempoolProbeStatus, ready, probe_syncing, probe_degraded}

unfoldable pub classify_mempool_fees_status : String → HttpStatus → Option MempoolProbeStatus
classify_mempool_fees_status fees_url status =
    if eqb status.status_code 200
    then none
    else if eqb status.status_code 503
    then some (
        probe_syncing
          ("mempool backend is syncing: " ⧺ fees_url ⧺ " returned " ⧺ status.status_line))
    else some (
        probe_degraded (
          "mempool probe failed for " ⧺ fees_url ⧺ ": unexpected HTTP status from "
          ⧺ status.authority ⧺ ": " ⧺ status.status_line))

abbrev pub probe_failed : String → MempoolProbeStatus
probe_failed url = probe_degraded ("mempool probe failed for " ⧺ url)

module _ (resolver : EnvResolver) where
  unfoldable pub mempool_url : String → String
  mempool_url path =
      "http://"
      ⧺ unwrap_or (resolver "MEMPOOL_HOST") "127.0.0.1"
      ⧺ ":"
      ⧺ unwrap_or (resolver "MEMPOOL_PORT") "8080"
      ⧺ path

  -- The first of `mempool_probe_urls`.
  unfoldable pub mempool_health_url : String
  mempool_health_url = mempool_url "/api/v1/backend-info"

  module _ (network : Network) where
    -- The `for` loop over the last paths.
    unfoldable pub probe_paths : List String → Act MempoolProbeStatus
    probe_paths [] = return ready
    probe_paths (path ∷ paths) =
        let rest = probe_paths paths in
        inspect (probe_http_200 network (mempool_url path)) λ result. elim result [
          | err e ↦ return (probe_failed (mempool_url path))
          | ok done ↦ rest
        ]

    -- After the judgement of the fees.
    unfoldable pub after_fees : Option MempoolProbeStatus → Act MempoolProbeStatus
    after_fees (some status) = return status
    after_fees none = probe_paths ("/api/mempool" ∷ "/api/blocks/tip/height" ∷ [])

    unfoldable pub probe_fees : String → Act MempoolProbeStatus
    probe_fees fees_url = inspect (probe_http_status network fees_url) λ result. elim result [
      | err e ↦ return (probe_failed fees_url)
      | ok status ↦ after_fees (classify_mempool_fees_status fees_url status)
    ]

    unfoldable pub probe_mempool_status : Act MempoolProbeStatus
    probe_mempool_status = inspect (probe_http_200 network mempool_health_url) λ result.
        elim result [
          | err e ↦ return (probe_failed mempool_health_url)
          | ok done ↦ probe_fees (mempool_url "/api/v1/fees/recommended")
        ]

    -- The `match` on the status of an attempt, with what comes after the sleep.
    unfoldable pub judge_attempt : ℕ → ℕ → Act (Unit {0}) → MempoolProbeStatus → Act (Unit {0})
    judge_attempt left delay again ready = return tt
    judge_attempt left delay again (probe_syncing detail) = return tt
    judge_attempt left delay again (probe_degraded detail) =
        if eqb left 0
        then lift (bail ("mempool did not become ready at " ⧺ mempool_health_url ⧺ ": " ⧺ detail))
        else thread_sleep delay >> again

    -- The `for` loop, with so many attempts left and this delay before the next one.
    unfoldable pub poll_readiness : ℕ → ℕ → Act (Unit {0})
    poll_readiness zero delay =
        lift (bail ("mempool did not become ready at " ⧺ mempool_health_url))
    poll_readiness (suc left) delay =
        probe_mempool_status >>= judge_attempt left delay (poll_readiness left (min (delay * 2) 8))

    unfoldable pub wait_for_mempool_readiness : Act (Unit {0})
    wait_for_mempool_readiness = poll_readiness 5 1

-- ===== src/Cli/Readiness/Bounds.antt =====
-- How many requests the wait for mempool makes, and how long it sleeps
-- (crates/infractl-cli/src/commands/service.rs).
use btc_infra_tools.Base.{
  ℕ, zero, suc, ◌+◌, ◌*◌, ◌≤◌, min, List, [], ◌∷◌, String, Option, none, some, arith, eqb,
}
use btc_infra_tools.Base.Result.{Error, Result, ok, err}
use btc_infra_tools.Core.Env.{EnvResolver}
use btc_infra_tools.Adapters.World.{slept, exchanged, Trace, Act, thread_sleep, return, lift}
use btc_infra_tools.Adapters.Rules.{
  Reaches, Leads, leads-lift, leads-return, leads-if, leads-bind, leads-inspect,
}
use btc_infra_tools.Cli.Http.{HttpEndpoint, Network, exchange, probe_http_status, probe_http_200}
use btc_infra_tools.Cli.Runtime.{MempoolProbeStatus, ready, probe_syncing, probe_degraded}
use btc_infra_tools.Cli.Readiness.{
  probe_paths, after_fees, probe_fees, probe_mempool_status, judge_attempt, poll_readiness,
  wait_for_mempool_readiness,
}

-- The HTTP requests of a trace, and the seconds that it slept.
abbrev pub requests : Trace → ℕ
requests [] = 0
requests (exchanged host port request r ∷ t) = suc (requests t)
requests (_ ∷ t) = requests t

abbrev pub seconds_slept : Trace → ℕ
seconds_slept [] = 0
seconds_slept (slept n ∷ t) = n + seconds_slept t
seconds_slept (_ ∷ t) = seconds_slept t

-- At most `r` requests in the end, where so many are still to come, and at most `s` seconds.
abbrev Room : ℕ → ℕ → ℕ → Trace → Type 0
Room r s n t = (requests t + n ≤ r) × (seconds_slept t ≤ s)

module _ (r : ℕ) where
  -- From one bound to another, however the action ends.
  abbrev Spends : {A : Type 0} → ℕ → ℕ → Act A → ℕ → ℕ → Type 0
  Spends s n act s' m = Leads (λ e t. Room r s' m t) (Room r s n) act (λ a t. Room r s' m t)

  abbrev weaken : (s n m : ℕ) (t : Trace) → m ≤ n → Room r s n t → Room r s m t
  weaken s n m t f h = (omega (arith, h.0, f), h.1)

  module _ (s n m : ℕ) (less : m ≤ n) where
    return-Spends : {A : Type 0} (a : A) → Spends s n (return a) s m
    return-Spends a = leads-return a (λ t h. weaken s n m t less h)

    lift-Spends :
        {A : Type 0} (result : Result A)
        → Leads (λ e t. Room r s m t) (Room r s n) (lift result) (λ a t. Room r s n t)
    lift-Spends result = leads-lift result (λ t a e h. h) (λ t e q h. weaken s n m t less h)

  module _ (s n : ℕ) (network : Network) where
    exchange-Spends : (endpoint : HttpEndpoint) → Spends s (suc n) (exchange network endpoint) s n
    unfolding exchange
    exchange-Spends endpoint = record { run = λ t h. spent _ t _ _ _ h }
      where
        spent :
            (result : Result String) (t : Trace) (host : String) (port : ℕ) (request : String)
            → Room r s (suc n) t
            → Reaches
                (λ e u. Room r s n u)
                (λ a u. Room r s n u)
                (result, exchanged host port request result ∷ t)
        spent (ok line) t host port request h = (omega (arith, h.0), h.1)
        spent (err e) t host port request h = (omega (arith, h.0), h.1)

    probe_http_status-Spends : (url : String) → Spends s (suc n) (probe_http_status network url) s n
    unfolding probe_http_status
    probe_http_status-Spends url = leads-bind (lift-Spends s (suc n) n (omega arith) _) (λ endpoint.
        leads-bind (exchange-Spends endpoint) (λ line.
          leads-bind (lift-Spends s n n (omega arith) _) (λ code. leads-return _ (λ t h. h))))

    probe_http_200-Spends : (url : String) → Spends s (suc n) (probe_http_200 network url) s n
    unfolding probe_http_200
    probe_http_200-Spends url =
        leads-bind (probe_http_status-Spends url) (λ status. lift-Spends s n n (omega arith) _)

  -- The probe does not fail: whatever is said of its errors holds.
  module _ (E : Error → Trace → Type 0) (s n : ℕ) (resolver : EnvResolver) (network : Network) where
    abbrev Asks : ℕ → Act MempoolProbeStatus → Type 0
    Asks m act = Leads E (Room r s m) act (λ a t. Room r s n t)

    told : (m : ℕ) → n ≤ m → (status : MempoolProbeStatus) → Asks m (return status)
    told m less status = leads-return status (λ t h. weaken s m n t less h)

    -- As many more requests as there are paths.
    abbrev with_paths : List String → ℕ
    with_paths [] = n
    with_paths (path ∷ paths) = suc (with_paths paths)

    with_paths-ge : (paths : List String) → n ≤ with_paths paths
    with_paths-ge [] = omega arith
    with_paths-ge (path ∷ paths) = omega (arith, with_paths-ge paths)

    probe_paths-Asks :
        (paths : List String) → Asks (with_paths paths) (probe_paths resolver network paths)
    unfolding probe_paths
    probe_paths-Asks [] = leads-return _ (λ t h. h)
    probe_paths-Asks (path ∷ paths) =
        leads-inspect (λ e. Room r s (with_paths paths))
          (probe_http_200-Spends s (with_paths paths) network _)
          (λ e. told _ (with_paths-ge paths) _) (λ done. probe_paths-Asks paths)

    after_fees-Asks :
        (judged : Option MempoolProbeStatus)
        → Asks (suc (suc n)) (after_fees resolver network judged)
    unfolding after_fees
    after_fees-Asks none = probe_paths-Asks _
    after_fees-Asks (some status) = told _ (omega arith) status

    probe_fees-Asks : (url : String) → Asks (suc (suc (suc n))) (probe_fees resolver network url)
    unfolding probe_fees
    probe_fees-Asks url =
        leads-inspect (λ e. Room r s (suc (suc n))) (probe_http_status-Spends s _ network url)
          (λ e. told _ (omega arith) _) (λ status. after_fees-Asks _)

    probe_mempool_status-Asks :
        Asks (suc (suc (suc (suc n)))) (probe_mempool_status resolver network)
    unfolding probe_mempool_status
    probe_mempool_status-Asks =
        leads-inspect (λ e. Room r s (suc (suc (suc n)))) (probe_http_200-Spends s _ network _)
          (λ e. told _ (omega arith) _) (λ done. probe_fees-Asks _)

  -- The requests of the polls that are left, and the seconds between them.
  abbrev asked_by : ℕ → ℕ
  asked_by zero = 0
  asked_by (suc left) = suc (suc (suc (suc (asked_by left))))

  abbrev slept_by : ℕ → ℕ → ℕ → ℕ
  slept_by zero delay s = s
  slept_by (suc zero) delay s = s
  slept_by (suc (suc left)) delay s = slept_by (suc left) (min (delay * 2) 8) (delay + s)

  slept_by-ge : (left delay s : ℕ) → s ≤ slept_by left delay s
  slept_by-ge zero delay s = omega arith
  slept_by-ge (suc zero) delay s = omega arith
  slept_by-ge (suc (suc left)) delay s =
      omega (arith, slept_by-ge (suc left) (min (delay * 2) 8) (delay + s))

  module _ (resolver : EnvResolver) (network : Network) where
    thread_sleep-Spends :
        (E : Error → Trace → Type 0) (s n delay : ℕ)
        → Leads E (Room r s n) (thread_sleep delay) (λ a t. Room r (delay + s) n t)
    unfolding thread_sleep
    thread_sleep-Spends E s n delay = record { run = λ t h. (h.0, omega (arith, h.1)) }

    leave : (s s' n : ℕ) (result : Result (Unit {0})) → s ≤ s' → Spends s n (lift result) s' 0
    leave s s' n result f =
        leads-lift result (λ t a e h. (omega (arith, h.0), omega (arith, h.1, f)))
          (λ t e q h. (omega (arith, h.0), omega (arith, h.1, f)))

    judge_attempt-Spends :
        (left delay s : ℕ) (again : Act (Unit {0})) (status : MempoolProbeStatus)
        → Spends (delay + s) (asked_by left) again (slept_by left (min (delay * 2) 8) (delay + s)) 0
        → Spends s
            (asked_by left)
            (judge_attempt resolver network left delay again status)
            (slept_by (suc left) delay s)
            0
    unfolding judge_attempt
    judge_attempt-Spends left delay s again ready f = leave s _ _ _ (slept_by-ge (suc left) delay s)
    judge_attempt-Spends left delay s again (probe_syncing detail) f =
        leave s _ _ _ (slept_by-ge (suc left) delay s)
    judge_attempt-Spends zero delay s again (probe_degraded detail) f = leave s s _ _ (omega arith)
    judge_attempt-Spends (suc left) delay s again (probe_degraded detail) f =
        leads-if (eqb (suc left) 0) (λ e. leave s _ _ _ (slept_by-ge (suc (suc left)) delay s))
          (λ e. leads-bind (thread_sleep-Spends _ s _ delay) (λ done. f))

    poll_readiness-Spends :
        (left delay s : ℕ)
        → Spends s
            (asked_by left)
            (poll_readiness resolver network left delay)
            (slept_by left delay s)
            0
    unfolding poll_readiness
    poll_readiness-Spends zero delay s = leave s s 0 _ (omega arith)
    poll_readiness-Spends (suc left) delay s =
        leads-bind (probe_mempool_status-Asks _ s (asked_by left) resolver network) (λ status.
          judge_attempt-Spends left delay s _ status
            (poll_readiness-Spends left (min (delay * 2) 8) (delay + s)))

bound_of :
    (r s : ℕ) (outcome : Result (Unit {0}) × Trace)
    → Reaches (λ e t. Room r s 0 t) (λ a t. Room r s 0 t) outcome
    → (requests outcome.1 ≤ r) × (seconds_slept outcome.1 ≤ s)
bound_of r s (ok done, t) h = (omega (arith, h.0), h.1)
bound_of r s (err e, t) h = (omega (arith, h.0), h.1)

-- The wait for the readiness of mempool makes at most 20 HTTP requests, four for each of five attempts,
-- and sleeps at most 15 seconds, whatever the network answers.
pub wait_for_mempool_readiness-bounds :
    (resolver : EnvResolver) (network : Network) (t : Trace)
    → (requests (wait_for_mempool_readiness resolver network t).1 ≤ requests t + 20)
      × (seconds_slept (wait_for_mempool_readiness resolver network t).1 ≤ seconds_slept t + 15)
unfolding wait_for_mempool_readiness
wait_for_mempool_readiness-bounds resolver network t =
    let most = requests t + 20 in
    let (asked, slept_most) =
      bound_of most (slept_by most 5 1 (seconds_slept t)) (poll_readiness resolver network 5 1 t) (
        (poll_readiness-Spends most resolver network 5 1 (seconds_slept t)).run t
          (omega arith, omega arith)) in
    (asked, omega (arith, slept_most))

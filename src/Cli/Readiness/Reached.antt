-- ===== src/Cli/Readiness/Reached.antt =====
-- What the requests of the readiness probe showed when it found mempool ready or syncing
-- (crates/infractl-cli/src/commands/service.rs).
use btc_infra_tools.Base.{
  ℕ, zero, suc, ◌≡◌, refl, ap, Option, none, some, [], ◌∷◌, ◌++◌, String, Bool, true, false, eqb,
  arith, if◌then◌else◌,
}
use btc_infra_tools.Base.Result.{Error, Result, ok, err}
use btc_infra_tools.Core.Env.{EnvResolver}
use btc_infra_tools.Adapters.World.{Event, Trace, Act, exchanged, return, thread_sleep}
use btc_infra_tools.Adapters.Rules.{
  Reaches, Leads, Anyhow, post_of, leads-any, leads-lift, leads-return, leads-if, leads-assume,
  leads-bind, leads-inspect,
}
use btc_infra_tools.Cli.Http.{
  HttpEndpoint, HttpStatus, Network, authority_of, request_of, trim_line_ends, parse_http_url,
  parse_http_status_code, validate_http_status, exchange, probe_http_status, probe_http_200,
}
use btc_infra_tools.Cli.Runtime.{MempoolProbeStatus, ready, probe_syncing, probe_degraded}
use btc_infra_tools.Cli.Readiness.{
  mempool_url, mempool_health_url, classify_mempool_fees_status, probe_paths, after_fees,
  probe_fees, probe_mempool_status, judge_attempt, poll_readiness, wait_for_mempool_readiness,
}

-- The event is a GET request of this URL whose answer has this status code.
pub record Shows (url : String) (status : ℕ) (e : Event) : Type 0 where
  pub endpoint : HttpEndpoint
  pub line : String
  pub parsed : parse_http_url url ≡ ok endpoint
  pub asked : e ≡ exchanged endpoint.host endpoint.port (request_of endpoint) (ok line)
  pub answered : parse_http_status_code (authority_of endpoint) (trim_line_ends line) ≡ ok status

module _ (resolver : EnvResolver) where
  -- The latest requests say that mempool serves: its backend answered 200, and so did the fees and the
  -- last two paths, or else the fees answered 503, which is a backend that syncs.
  pub data Serves : Trace → Type 0 where
    all_served :
        {backend fees pool height : Event}
        → Shows (mempool_url resolver "/api/v1/backend-info") 200 backend
        → Shows (mempool_url resolver "/api/v1/fees/recommended") 200 fees
        → Shows (mempool_url resolver "/api/mempool") 200 pool
        → Shows (mempool_url resolver "/api/blocks/tip/height") 200 height
        → Serves (height ∷ pool ∷ fees ∷ backend ∷ [])
    still_syncs :
        {backend fees : Event}
        → Shows (mempool_url resolver "/api/v1/backend-info") 200 backend
        → Shows (mempool_url resolver "/api/v1/fees/recommended") 503 fees
        → Serves (fees ∷ backend ∷ [])

  -- The trace ends with such requests.
  pub record Reached (t : Trace) : Type 0 where
    pub before : Trace
    pub latest : Trace
    pub whole : t ≡ latest ++ before
    pub serves : Serves latest

-- The trace is this one, longer by an event of this kind.
abbrev Adds : Trace → (Event → Type 0) → Trace → Type 0
Adds before kind t = (e : Event) × (t ≡ e ∷ before) × kind e

module _ (network : Network) (before : Trace) where
  abbrev At : Trace → Type 0
  At t = t ≡ before

  exchange-Adds :
      (endpoint : HttpEndpoint)
      → Leads Anyhow At (exchange network endpoint) (λ line.
        Adds before
          (λ e. e ≡ exchanged endpoint.host endpoint.port (request_of endpoint) (ok line)))
  unfolding exchange
  exchange-Adds endpoint = record { run = λ t h. asked _ t endpoint h }
    where
      asked :
          (result : Result String) (t : Trace) (endpoint : HttpEndpoint)
          → At t
          → Reaches Anyhow
              (λ line.
                Adds before
                  (λ e. e ≡ exchanged endpoint.host endpoint.port (request_of endpoint) (ok line)))
              (result, exchanged endpoint.host endpoint.port (request_of endpoint) result ∷ t)
      asked (ok line) t endpoint h = (
        exchanged endpoint.host endpoint.port (request_of endpoint) (ok line),
        ap (λ u. exchanged endpoint.host endpoint.port (request_of endpoint) (ok line) ∷ u) h,
        refl,
      )
      asked (err e) t endpoint h = tt

  probe_http_status-Shows :
      (url : String)
      → Leads Anyhow At
          (probe_http_status network url)
          (λ status. Adds before (Shows url status.status_code))
  unfolding probe_http_status
  probe_http_status-Shows url =
      leads-bind {Q = λ endpoint t. (parse_http_url url ≡ ok endpoint) × At t}
        (leads-lift _ (λ t a e h. (e, h)) (λ t e q h. tt))
        (λ endpoint. leads-assume (λ parsed. leads-bind (exchange-Adds endpoint) (λ line.
          leads-bind {Q = λ code. Adds before (Shows url code)}
            (leads-lift _
              (λ t code q (e, grown, asked). (
                e,
                grown,
                record {
                  endpoint = endpoint;
                  line = line;
                  parsed = parsed;
                  asked = asked;
                  answered = q;
                },
              ))
              (λ t e q h. tt))
            (λ code. leads-return _ (λ t h. h)))))

  validate-200 :
      (authority line : String) (code : ℕ)
      → validate_http_status authority line code ≡ ok tt
      → code ≡ 200
  unfolding validate_http_status
  validate-200 authority line code h = ground (arith, h)

  probe_http_200-Shows :
      (url : String)
      → Leads Anyhow At (probe_http_200 network url) (λ done. Adds before (Shows url 200))
  unfolding probe_http_200
  probe_http_200-Shows url = leads-bind (probe_http_status-Shows url) (λ status.
      leads-lift _
        (λ t done q (e, grown, shown).
          (e, grown, rw (← validate-200 status.authority status.status_line _ q) shown))
        (λ t e q h. tt))

-- What the probe found, counted from this trace on; nothing where mempool is degraded.
Found : EnvResolver → Trace → MempoolProbeStatus → Trace → Type 0
Found resolver before ready t = (latest : Trace) × (t ≡ latest ++ before) × Serves resolver latest
Found resolver before (probe_syncing detail) t =
    (latest : Trace) × (t ≡ latest ++ before) × Serves resolver latest
Found resolver before (probe_degraded detail) t = Unit

-- The judgement of the fees, by the status code that they answered.
Fees : Option MempoolProbeStatus → ℕ → Type 0
Fees none status = status ≡ 200
Fees (some ready) status = status ≡ 503
Fees (some (probe_syncing detail)) status = status ≡ 503
Fees (some (probe_degraded detail)) status = Unit

classify-Fees :
    (url : String) (status : HttpStatus)
    → Fees (classify_mempool_fees_status url status) status.status_code
unfolding classify_mempool_fees_status Fees
classify-Fees url status =
    classed _ _ status.status_code (eqb status.status_code 200) (eqb status.status_code 503) refl
      refl
  where
    classed :
        (detail other : String) (n : ℕ) (is_ok is_syncing : Bool)
        → eqb n 200 ≡ is_ok
        → eqb n 503 ≡ is_syncing
        → Fees
            (if is_ok
              then none
              else if is_syncing
              then some (probe_syncing detail)
              else some (probe_degraded other))
            n
    classed detail other n true s e f = ground (arith, e)
    classed detail other n false true e f = ground (arith, f)
    classed detail other n false false e f = tt

module _ (E : Error → Trace → Type 0) (resolver : EnvResolver) (network : Network)
    (before : Trace) where
  abbrev Finds : (Trace → Type 0) → Act MempoolProbeStatus → Type 0
  Finds P act = Leads E P act (Found resolver before)

  degraded-Found : {P : Trace → Type 0} (detail : String) → Finds P (return (probe_degraded detail))
  unfolding Found
  degraded-Found detail = leads-return _ (λ t h. tt)

  -- After the backend and the fees.
  module _ (backend : Event)
      (backend_shown : Shows (mempool_url resolver "/api/v1/backend-info") 200 backend)
      (fees : Event) where
    abbrev After : Trace → Type 0
    After t = t ≡ fees ∷ backend ∷ before

    probe_paths-Found :
        Shows (mempool_url resolver "/api/v1/fees/recommended") 200 fees
        → Finds After
            (probe_paths resolver network ("/api/mempool" ∷ "/api/blocks/tip/height" ∷ []))
    unfolding probe_paths Found
    probe_paths-Found shown =
        leads-inspect Anyhow (probe_http_200-Shows network (fees ∷ backend ∷ before) _)
          (λ e. degraded-Found _)
          (λ done. record {
            run = λ t (pool, grown, pool_shown).
                (leads-inspect {E = E} {P = λ u. u ≡ pool ∷ fees ∷ backend ∷ before} Anyhow
                    (probe_http_200-Shows network (pool ∷ fees ∷ backend ∷ before) _)
                    (λ e. degraded-Found _)
                    (λ last. leads-return ready (λ u (height, whole, height_shown). (
                      height ∷ pool ∷ fees ∷ backend ∷ [],
                      whole,
                      all_served backend_shown shown pool_shown height_shown,
                    )))).run
                  t grown;
          })

    after_fees-Found :
        (judged : Option MempoolProbeStatus) (status : ℕ)
        → Fees judged status
        → Shows (mempool_url resolver "/api/v1/fees/recommended") status fees
        → Finds After (after_fees resolver network judged)
    unfolding after_fees Fees Found
    after_fees-Found none status f shown = probe_paths-Found (rw (← f) shown)
    after_fees-Found (some ready) status f shown =
        leads-return _ (λ t h. (fees ∷ backend ∷ [], h, still_syncs backend_shown (rw (← f) shown)))
    after_fees-Found (some (probe_syncing detail)) status f shown =
        leads-return _ (λ t h. (fees ∷ backend ∷ [], h, still_syncs backend_shown (rw (← f) shown)))
    after_fees-Found (some (probe_degraded detail)) status f shown = degraded-Found detail

  probe_mempool_status-Found : Finds (λ t. t ≡ before) (probe_mempool_status resolver network)
  unfolding probe_mempool_status probe_fees mempool_health_url
  probe_mempool_status-Found =
      leads-inspect Anyhow (probe_http_200-Shows network before _) (λ e. degraded-Found _)
        (λ done. record {
          run = λ t (backend, grown, backend_shown).
              (leads-inspect {E = E} {P = λ u. u ≡ backend ∷ before} Anyhow
                  (probe_http_status-Shows network (backend ∷ before) _) (λ e. degraded-Found _)
                  (λ status. record {
                    run = λ u (fees, whole, fees_shown).
                        (after_fees-Found backend backend_shown fees _ status.status_code
                            (classify-Fees _ status) fees_shown).run
                          u whole;
                  })).run
                t grown;
        })

module _ (resolver : EnvResolver) (network : Network) where
  judge_attempt-Reached :
      (left delay : ℕ) (again : Act (Unit {0})) (status : MempoolProbeStatus)
      → Leads Anyhow (λ t. Unit) again (λ done. Reached resolver)
      → Leads Anyhow
          (λ t. (before : Trace) × Found resolver before status t)
          (judge_attempt resolver network left delay again status)
          (λ done. Reached resolver)
  unfolding judge_attempt Found
  judge_attempt-Reached left delay again ready f =
      leads-return tt (λ t (before, (latest, whole, serves)). record {
        before = before;
        latest = latest;
        whole = whole;
        serves = serves;
      })
  judge_attempt-Reached left delay again (probe_syncing detail) f =
      leads-return tt (λ t (before, (latest, whole, serves)). record {
        before = before;
        latest = latest;
        whole = whole;
        serves = serves;
      })
  judge_attempt-Reached left delay again (probe_degraded detail) f =
      leads-if (eqb left 0) (λ e. leads-lift _ (λ t a q h. cc) (λ t e q h. tt))
        (λ e. leads-bind (leads-any (thread_sleep delay)) (λ done. f))

  poll_readiness-Reached :
      (left delay : ℕ)
      → Leads Anyhow
          (λ t. Unit)
          (poll_readiness resolver network left delay)
          (λ done. Reached resolver)
  unfolding poll_readiness
  poll_readiness-Reached zero delay = leads-lift _ (λ t a q h. cc) (λ t e q h. tt)
  poll_readiness-Reached (suc left) delay =
      leads-bind {Q = λ status t. (before : Trace) × Found resolver before status t}
        (record {
          run = λ t h.
              found_from t (probe_mempool_status resolver network t)
                ((probe_mempool_status-Found Anyhow resolver network t).run t refl);
        })
        (λ status. judge_attempt-Reached left delay _ status (poll_readiness-Reached left _))
    where
      found_from :
          (before : Trace) (outcome : Result MempoolProbeStatus × Trace)
          → Reaches Anyhow (Found resolver before) outcome
          → Reaches Anyhow (λ status t. (start : Trace) × Found resolver start status t) outcome
      found_from before (ok status, t) h = (before, h)
      found_from before (err e, t) h = tt

  pub wait-Reached :
      Leads Anyhow
        (λ t. Unit)
        (wait_for_mempool_readiness resolver network)
        (λ done. Reached resolver)
  unfolding wait_for_mempool_readiness
  wait-Reached = poll_readiness-Reached 5 1

  -- Where the wait ends well, the latest requests of the trace say that mempool serves, or that its
  -- backend answers and its fees are still syncing.
  pub wait_for_mempool_readiness-Reached :
      (t : Trace)
      → (wait_for_mempool_readiness resolver network t).0 ≡ ok tt
      → Reached resolver (wait_for_mempool_readiness resolver network t).1
  wait_for_mempool_readiness-Reached t =
      post_of Anyhow (λ done. Reached resolver) (wait_for_mempool_readiness resolver network t) tt
        (wait-Reached.run t tt)

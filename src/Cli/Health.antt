-- ===== src/Cli/Health.antt =====
-- The health report of a pool (crates/infractl-cli/src/commands/health.rs). The numbers of 64 bits with a
-- floating point, the parser of the JSON of the pool and the TCP stream are parameters.
mod Tests
pub mod Asked
use Prim.Native.String
use Prim.Native.String.{[], ◌∷◌}
use mathlib.Core.List.{List}
use mathlib.Core.Option
use btc_infra_tools.Base.{
  ℕ, Option, none, some, String, Bool, eqb, code, if◌then◌else◌, unwrap_or, is_some, or_else,
}
use btc_infra_tools.Base.Text.{◌⧺◌, show_ℕ, strip_prefix, split_once}
use btc_infra_tools.Base.Result
use btc_infra_tools.Base.Result.{Result, ok, err, bail, context, map_ok}
use btc_infra_tools.Adapters.Launchd.{split_lines}
use btc_infra_tools.Adapters.World.{Trace, Act, ◌>>=◌, lift, exchanged}
use btc_infra_tools.Cli.Http.{Network, HttpEndpoint, parse_u16, authority_of, request_of}

-- `f64`: `x >= n`, `x / n` and `{:.places$}`.
pub record Float : Type 1 where
  pub Number : Type 0
  pub at_least : Number → ℕ → Bool
  pub divided : Number → ℕ → Number
  pub fixed : ℕ → Number → String

unfoldable pub pool_info_url : Option String → ℕ → Option String → String
pool_info_url target port (some url) = url
pool_info_url target port none =
    "http://" ⧺ unwrap_or target "127.0.0.1" ⧺ ":" ⧺ show_ℕ port ⧺ "/api/info"

-- The host and the port of an authority.
unfoldable pub parse_authority : String → String → Result (String × ℕ)
parse_authority url authority = elim (split_once authority ":") [
  | none ↦ ok (authority, 80)
  | some (host, port) ↦
      map_ok (λ n. (host, n)) (context (parse_u16 port) ("invalid port in URL `" ⧺ url ⧺ "`"))
]

unfoldable pub endpoint_of : String → String → String × ℕ → Result HttpEndpoint
endpoint_of url path ([], port) = bail ("missing host in URL `" ⧺ url ⧺ "`")
endpoint_of url path (c ∷ host, port) = ok (record { host = c ∷ host; port = port; path = path })

unfoldable pub parse_http_url : String → Result HttpEndpoint
parse_http_url url = elim (strip_prefix url "http://") [
  | none ↦ bail "only http:// URLs are currently supported"
  | some without_scheme ↦ elim (split_once without_scheme "/") [
    | none ↦ Result.◌>>=◌ (parse_authority url without_scheme) (endpoint_of url "/")
    | some (authority, path) ↦
        Result.◌>>=◌ (parse_authority url authority) (endpoint_of url ("/" ⧺ path))
  ]
]

module _ (float : Float) where
  open float use {Number, at_least, divided, fixed}

  pub record PoolUserAgent : Type 0 where
    pub user_agent : String
    pub total_hash_rate : Option Number

  pub record PoolHighScore : Type 0 where
    pub updated_at : Option String
    pub best_difficulty : Number
    pub best_difficulty_user_agent : Option String

  pub record PoolInfoResponse : Type 0 where
    pub user_agents : List PoolUserAgent
    pub high_scores : List PoolHighScore
    pub uptime : Option String

  pub record PoolHealthData : Type 0 where
    pub url : String
    pub best_share : Option Number
    pub best_share_human : Option String
    pub miner : Option String
    pub updated_at : Option String
    pub hashrate_ths : Option Number
    pub hashrate_human : Option String
    pub uptime_since : Option String

  unfoldable pub human_metric : Number → String
  human_metric value =
      if at_least value 1000000000000
      then fixed 2 (divided value 1000000000000) ⧺ "T"
      else if at_least value 1000000000
      then fixed 2 (divided value 1000000000) ⧺ "G"
      else if at_least value 1000000
      then fixed 2 (divided value 1000000) ⧺ "M"
      else if at_least value 1000
      then fixed 2 (divided value 1000) ⧺ "K"
      else fixed 0 value

  abbrev pub first : {A : Type 0} → List A → Option A
  first List.[] = none
  first (List.◌∷◌ a rest) = some a

  -- `and_then`
  abbrev and_then : {A B : Type 0} → Option A → (A → Option B) → Option B
  and_then none f = none
  and_then (some a) f = f a

  unfoldable pub summarize_pool_info : String → PoolInfoResponse → PoolHealthData
  summarize_pool_info url info =
      let best = first info.high_scores in
      let agent = first info.user_agents in
      let best_share = Option.map (λ entry. entry.best_difficulty) best in
      let hashrate_ths =
        Option.map (λ value. divided value 1000000000000)
          (and_then agent (λ entry. entry.total_hash_rate)) in
      record {
        url = url;
        best_share = best_share;
        best_share_human = Option.map human_metric best_share;
        miner =
            or_else (and_then best (λ entry. entry.best_difficulty_user_agent))
              (Option.map (λ entry. entry.user_agent) agent);
        updated_at = and_then best (λ entry. entry.updated_at);
        hashrate_ths = hashrate_ths;
        hashrate_human = Option.map (λ value. fixed 2 value ⧺ " TH/s") hashrate_ths;
        uptime_since = info.uptime;
      }

  unfoldable pub render_pool_health_text : PoolHealthData → String
  render_pool_health_text shown =
      "best_share="
      ⧺ unwrap_or shown.best_share_human "n/a"
      ⧺ " miner="
      ⧺ unwrap_or shown.miner "n/a"
      ⧺ " hashrate="
      ⧺ unwrap_or shown.hashrate_human "n/a"
      ⧺ " updated="
      ⧺ unwrap_or shown.updated_at "n/a"
      ⧺ " uptime_since="
      ⧺ unwrap_or shown.uptime_since "n/a"

  -- `response.lines().next().unwrap_or_default()`
  abbrev pub status_line_of : String → String
  status_line_of response = unwrap_or (first (split_lines response)) ""

  module _ (network : Network) (read_to_string : Trace → Result String)
      (from_str : String → Result PoolInfoResponse) where
    -- From the connection to the whole response.
    unfoldable pub response_of : Trace → HttpEndpoint → Result String
    response_of t endpoint =
        Result.◌>>◌
          (context (network.connect t endpoint.host endpoint.port)
            ("failed to connect to " ⧺ authority_of endpoint))
          (Result.◌>>◌ (context (network.set_read_timeout t) "failed to set read timeout") (
            Result.◌>>◌ (context (network.set_write_timeout t) "failed to set write timeout") (
              Result.◌>>◌
                (context (network.write_all t (request_of endpoint)) "failed to write HTTP request")
                (context (read_to_string t) "failed to read HTTP response"))))

    unfoldable pub ask : HttpEndpoint → Act String
    ask endpoint t =
        let r = response_of t endpoint in
        (r, List.◌∷◌ (exchanged endpoint.host endpoint.port (request_of endpoint) r) t)

    -- From the split of the response on.
    unfoldable pub read_response : String → HttpEndpoint → String → Result PoolInfoResponse
    read_response url endpoint response = elim (split_once response "\r\n\r\n") [
      | none ↦ bail ("invalid HTTP response from " ⧺ authority_of endpoint)
      | some (head, body) ↦
          if is_some (split_once (status_line_of response) " 200 ")
          then context (from_str body) ("failed to parse JSON from " ⧺ url)
          else bail (
              "unexpected HTTP status from "
              ⧺ authority_of endpoint
              ⧺ ": "
              ⧺ status_line_of response)
    ]

    unfoldable pub fetch_pool_info : String → Act PoolInfoResponse
    fetch_pool_info url = lift (parse_http_url url) >>= λ endpoint.
        ask endpoint >>= λ response. lift (read_response url endpoint response)

    -- `emit_pool_health` that is not a dry run: the data and the message that it prints.
    unfoldable pub pool_health : Option String → ℕ → Option String → Act (PoolHealthData × String)
    pool_health target port explicit_url =
        let url = pool_info_url target port explicit_url in
        fetch_pool_info url >>= λ info.
        let shown = summarize_pool_info url info in lift (ok (shown, render_pool_health_text shown))

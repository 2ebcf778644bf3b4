-- ===== src/Cli/Health/Asked.antt =====
-- What the health report of a pool asks for (crates/infractl-cli/src/commands/health.rs).
use mathlib.Core.List.{List, [], ◌∷◌}
use text.Mathlib.TextLemmas.{append_assoc}
use btc_infra_tools.Base.{
  ℕ, ◌≤◌, ◌≡◌, ◌≢◌, refl, none, some, String, sym, ap, ◌∙◌, arith, is_some, true, inl, inr,
  Option-cases, unwrap_or,
}
use btc_infra_tools.Base.Splits.{Free, strip_prefix-append, split_once-append, split_once-eq-some}
use btc_infra_tools.Base.Text.{◌⧺◌, show_ℕ, strip_prefix, split_once}
use btc_infra_tools.Base.Result
use btc_infra_tools.Base.Result.{Result, ok, err, >>=-eq-ok}
use btc_infra_tools.Adapters.World.{Trace, ◌>>=◌, continue, lift, exchanged}
use btc_infra_tools.Adapters.Launchd.{split_lines}
use btc_infra_tools.Cli.Http.{Network, HttpEndpoint, authority_of, request_of}
use btc_infra_tools.Cli.Http.RoundTrip.{parse_u16-show_ℕ, authority-Free}
use btc_infra_tools.Cli.Health
use btc_infra_tools.Cli.Health.{
  Float, status_line_of, PoolInfoResponse, pool_info_url, parse_authority, endpoint_of,
  parse_http_url, response_of, ask, read_response, fetch_pool_info,
}

-- The endpoint of the pool at a host and a port.
abbrev pub pool_endpoint : String → ℕ → HttpEndpoint
pool_endpoint host port = record { host = host; port = port; path = "/api/info" }

endpoint_of-named :
    (url path host : String) (port : ℕ)
    → host ≢ ""
    → endpoint_of url path (host, port) ≡ ok (record { host = host; port = port; path = path })
unfolding endpoint_of
endpoint_of-named url path String.[] port h = absurd (h refl)
endpoint_of-named url path (String.◌∷◌ c host) port h = refl

parse_authority-pool :
    (url host : String) (port : ℕ)
    → Free ":" host
    → port ≤ 65535
    → parse_authority url (host ⧺ (":" ⧺ show_ℕ port)) ≡ ok (host, port)
unfolding parse_authority
parse_authority-pool url host port h small =
    rw (parse_authority, split_once-append host ":" "" (show_ℕ port) h, parse_u16-show_ℕ port small)
      refl

abbrev pub pool_url : String → ℕ → String
pool_url host port = pool_info_url (some host) port none

-- What a request for the information of a pool gives.
abbrev pub pool_response :
    (float : Float)
    → Network
    → (Trace → Result String)
    → (String → Result (PoolInfoResponse float))
    → String
    → ℕ
    → Trace
    → Result String
pool_response float network read_to_string from_str host port t =
    response_of float network read_to_string from_str t (pool_endpoint host port)

-- The request for the information of a pool.
abbrev pub get_request : String → ℕ → String
get_request host port =
    "GET "
    ⧺ "/api/info"
    ⧺ " HTTP/1.1\r\nHost: "
    ⧺ (host ⧺ ":" ⧺ show_ℕ port)
    ⧺ "\r\nConnection: close\r\nAccept: application/json\r\n\r\n"

module _ (float : Float) (network : Network) (read_to_string : Trace → Result String)
    (from_str : String → Result (PoolInfoResponse float)) (host : String) (port : ℕ)
    (t : Trace) where
  -- How this information was fetched.
  pub record Fetched (response : Result String) (info : PoolInfoResponse float) : Type 0 where
    pub whole : String
    pub headers : String
    pub body : String
    pub line : String
    pub more : List String
    pub before_code : String
    pub after_code : String
    pub is_connected : network.connect t host port ≡ ok tt
    pub is_timed : network.set_read_timeout t ≡ ok tt
    pub is_limited : network.set_write_timeout t ≡ ok tt
    pub is_written : network.write_all t (get_request host port) ≡ ok tt
    pub is_read : read_to_string t ≡ ok whole
    pub is_answer : response ≡ ok whole
    pub is_split : whole ≡ headers ⧺ ("\r\n\r\n" ⧺ body)
    pub has_line : split_lines whole ≡ line ∷ more
    pub is_ok : line ≡ before_code ⧺ (" 200 " ⧺ after_code)
    pub is_parsed : from_str body ≡ ok info

  response-parts :
      (whole : String)
      → pool_response float network read_to_string from_str host port t ≡ ok whole
      → (network.connect t host port ≡ ok tt)
        × (network.set_read_timeout t ≡ ok tt)
        × (network.set_write_timeout t ≡ ok tt)
        × (network.write_all t (get_request host port) ≡ ok tt)
        × (read_to_string t ≡ ok whole)
  unfolding response_of authority_of
  response-parts whole h = ground (arith, h)

  -- What a response that is read has.
  response-read :
      (url whole : String) (info : PoolInfoResponse float)
      → read_response float network read_to_string from_str url (pool_endpoint host port) whole
        ≡ ok info
      → (headers : String) × (body : String) × (split_once whole "\r\n\r\n" ≡ some (headers, body))
        × (is_some (split_once (status_line_of float whole) " 200 ") ≡ true)
        × (from_str body ≡ ok info)
  unfolding read_response
  response-read url whole info h = elim (Option-cases (split_once whole "\r\n\r\n")) [
    | inl p ↦ absurd (ground (arith, h, p))
    | inr ((headers, body), p) ↦ (headers, body, p, ground (arith, h, p), ground (arith, h, p))
  ]

  coded :
      (line : String)
      → is_some (split_once line " 200 ") ≡ true
      → (before : String) × (after : String) × (line ≡ before ⧺ (" 200 " ⧺ after))
  coded line h = elim (Option-cases (split_once line " 200 ")) [
    | inl p ↦ absurd (ground (arith, h, p))
    | inr ((before, after), p) ↦ (before, after, split_once-eq-some line " 200 " before after p)
  ]

  first-coded :
      (lines : List String)
      → is_some (split_once (unwrap_or (Health.first float lines) "") " 200 ") ≡ true
      → (line : String) × (more : List String) × (lines ≡ line ∷ more)
        × (is_some (split_once line " 200 ") ≡ true)
  unfolding split_once strip_prefix
  first-coded [] h = cc
  first-coded (line ∷ more) h = (line, more, refl, h)

  read-Fetched :
      (info : PoolInfoResponse float)
      → Result.◌>>=◌ (pool_response float network read_to_string from_str host port t) (
          read_response float network read_to_string from_str
            (pool_url host port)
            (pool_endpoint host port))
        ≡ ok info
      → Fetched (pool_response float network read_to_string from_str host port t) info
  read-Fetched info h =
      let (whole, is_answer, q) = >>=-eq-ok _ _ h in
      let (connected, timed, limited, written, is_read) = response-parts whole is_answer in
      let (headers, body, p, c, parsed) = response-read (pool_url host port) whole info q in
      let (line, more, has_line, d) = first-coded (split_lines whole) c in
      let (before, after, is_ok) = coded line d in
      record {
        whole = whole;
        headers = headers;
        body = body;
        line = line;
        more = more;
        before_code = before;
        after_code = after;
        is_connected = connected;
        is_timed = timed;
        is_limited = limited;
        is_written = written;
        is_read = is_read;
        is_answer = is_answer;
        is_split = split_once-eq-some whole "\r\n\r\n" headers body p;
        has_line = has_line;
        is_ok = is_ok;
        is_parsed = parsed;
      }

answered :
    {A B : Type 0} (r : Result A) (t : Trace) (f : A → Result B)
    → continue (r, t) (λ a. lift (f a)) ≡ (Result.◌>>=◌ r f, t)
unfolding lift
answered (ok a) t f = refl
answered (err e) t f = refl

module _ (host : String) (port : ℕ) (named : host ≢ "") (no_colon : Free ":" host)
    (no_slash : Free "/" host) (small : port ≤ 65535) where
  parse_http_url-authority :
      parse_http_url ("http://" ⧺ ((host ⧺ (":" ⧺ show_ℕ port)) ⧺ ("/" ⧺ "api/info")))
      ≡ ok (pool_endpoint host port)
  unfolding parse_http_url
  parse_http_url-authority =
      rw
        (
          parse_http_url,
          strip_prefix-append "http://" ((host ⧺ (":" ⧺ show_ℕ port)) ⧺ ("/" ⧺ "api/info")),
          split_once-append (host ⧺ (":" ⧺ show_ℕ port)) "/" "" "api/info"
              (authority-Free host port no_slash),
          parse_authority-pool _ host port no_colon small,
          endpoint_of-named _ ("/" ⧺ "api/info") host port named,
        )
        refl

  -- The URL of a pool is read as the endpoint at the host and the port.
  parse_http_url-pool_info_url :
      parse_http_url (pool_info_url (some host) port none) ≡ ok (pool_endpoint host port)
  unfolding pool_info_url
  parse_http_url-pool_info_url =
      ap (λ rest. parse_http_url ("http://" ⧺ rest))
        (ap (λ rest. host ⧺ rest) (sym (append_assoc ":" (show_ℕ port) "/api/info"))
          ∙ sym (append_assoc host (":" ⧺ show_ℕ port) "/api/info"))
      ∙ parse_http_url-authority

  module _ (float : Float) (network : Network) (read_to_string : Trace → Result String)
      (from_str : String → Result (PoolInfoResponse float)) (t : Trace) where
    fetch_pool_info-asked :
        fetch_pool_info float network read_to_string from_str (pool_url host port) t ≡ (
          Result.◌>>=◌ (pool_response float network read_to_string from_str host port t) (
              read_response float network read_to_string from_str
                (pool_url host port)
                (pool_endpoint host port)),
          exchanged host port
                (request_of (pool_endpoint host port))
                (pool_response float network read_to_string from_str host port t)
              ∷ t,
        )
    unfolding fetch_pool_info lift ◌>>=◌ ask
    fetch_pool_info-asked =
        rw parse_http_url-pool_info_url
          (answered (pool_response float network read_to_string from_str host port t) _ _)

    -- A fetch from the URL of a pool makes one request, `GET /api/info` to that host and port, whatever is
    -- answered. Where it succeeds, the connection, the timeouts and the writing succeeded, the first line
    -- of the response has ` 200 ` in it, and the information is what the text after an empty line of the
    -- response is parsed to. It holds where the host is not empty and has no `:` and no `/`, and the port
    -- is a number of 16 bits.
    pub fetch_pool_info-Fetched :
        (response : Result String) × ((fetch_pool_info float network read_to_string from_str
            (pool_url host port)
            t).1
          ≡ exchanged host port (get_request host port) response ∷ t)
        × ((info : PoolInfoResponse float)
            → (fetch_pool_info float network read_to_string from_str (pool_url host port) t).0
              ≡ ok info
            → Fetched float network read_to_string from_str host port t response info)
    unfolding authority_of
    fetch_pool_info-Fetched = (
      pool_response float network read_to_string from_str host port t,
      ap (λ r. r.1) fetch_pool_info-asked,
      λ info h.
          read-Fetched float network read_to_string from_str host port t info
            (sym (ap (λ r. r.0) fetch_pool_info-asked) ∙ h),
    )

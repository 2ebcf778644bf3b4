-- ===== src/Cli/Http.antt =====
-- HTTP requests of the readiness probe (crates/infractl-cli/src/commands/service.rs). The TCP
-- stream is a parameter, a record of its answers.
mod Tests
pub mod RoundTrip
use Prim.Native.String.{[], ◌∷◌}
use mathlib.Core.List.{List}
use btc_infra_tools.Base.{
  ℕ, ◌+◌, ◌-◌, ◌*◌, Option, none, some, String, Char, code, Bool, ◌&&◌, ◌||◌, eqb, leb,
  if◌then◌else◌,
}
use btc_infra_tools.Base.Text.{◌⧺◌, show_ℕ, strip_prefix, split_once}
use btc_infra_tools.Base.Text.Decimal.{is_digit}
use btc_infra_tools.Base.Result
use btc_infra_tools.Base.Result.{Result, ok, bail, context, map_ok}
use btc_infra_tools.Watchdog.Events.{split_whitespace}
use btc_infra_tools.Adapters.World.{Trace, Act, ◌>>=◌, lift, return, exchanged}

-- `TcpStream::connect`, the timeouts of the stream, and what is written to it and read from it.
pub record Network : Type 0 where
  pub connect : Trace → String → ℕ → Result (Unit {0})
  pub set_read_timeout : Trace → Result (Unit {0})
  pub set_write_timeout : Trace → Result (Unit {0})
  pub write_all : Trace → String → Result (Unit {0})
  pub read_line : Trace → Result String

-- The digits of a `u16` after a part with this value, with the errors of `ParseIntError`.
unfoldable pub u16_digits : String → ℕ → Result ℕ
u16_digits [] n = ok n
u16_digits (c ∷ s) n =
    let next = n * 10 + (code c - 48) in
    let rest = u16_digits s next in
    if is_digit c
    then (if leb next 65535 then rest else bail "number too large to fit in target type")
    else bail "invalid digit found in string"

unfoldable pub u16_number : String → Result ℕ
u16_number [] = bail "invalid digit found in string"
u16_number (c ∷ s) = u16_digits (c ∷ s) 0

-- `parse::<u16>()`
unfoldable pub parse_u16 : String → Result ℕ
parse_u16 [] = bail "cannot parse integer from empty string"
parse_u16 (c ∷ s) = if eqb (code c) 43 then u16_number s else u16_number (c ∷ s)

abbrev is_line_end : Char → Bool
is_line_end c = eqb (code c) 13 || eqb (code c) 10

drop_line_end : Char → String → String
drop_line_end c [] = if is_line_end c then "" else c ∷ ""
drop_line_end c (d ∷ s) = c ∷ d ∷ s

-- `trim_end_matches(['\r', '\n'])`
unfoldable pub trim_line_ends : String → String
unfolding drop_line_end
trim_line_ends [] = ""
trim_line_ends (c ∷ s) = drop_line_end c (trim_line_ends s)

-- `nth(1)`
abbrev second : List String → Option String
second List.[] = none
second (List.◌∷◌ a List.[]) = none
second (List.◌∷◌ a (List.◌∷◌ b rest)) = some b

pub record HttpEndpoint : Type 0 where
  pub host : String
  pub port : ℕ
  pub path : String

pub record HttpStatus : Type 0 where
  pub authority : String
  pub status_line : String
  pub status_code : ℕ

unfoldable pub authority_of : HttpEndpoint → String
authority_of endpoint = endpoint.host ⧺ ":" ⧺ show_ℕ endpoint.port

-- The host and the port of an authority.
unfoldable pub parse_authority : String → String → Result (String × ℕ)
parse_authority url authority = elim (split_once authority ":") [
  | none ↦ ok (authority, 80)
  | some (host, port) ↦
      map_ok (λ n. (host, n)) (context (parse_u16 port) ("invalid port in `" ⧺ url ⧺ "`"))
]

abbrev with_path : String → Result (String × ℕ) → Result HttpEndpoint
with_path path r = map_ok (λ (host, port). record { host = host; port = port; path = path }) r

unfoldable pub parse_http_url : String → Result HttpEndpoint
parse_http_url url = elim (strip_prefix url "http://") [
  | none ↦ bail ("unsupported URL scheme for `" ⧺ url ⧺ "`")
  | some without_scheme ↦ elim (split_once without_scheme "/") [
    | none ↦ with_path "/" (parse_authority url without_scheme)
    | some (authority, rest) ↦ with_path ("/" ⧺ rest) (parse_authority url authority)
  ]
]

unfoldable pub parse_http_status_code : String → String → Result ℕ
parse_http_status_code authority status_line = elim (second (split_whitespace status_line)) [
  | none ↦ bail ("invalid HTTP status from " ⧺ authority ⧺ ": " ⧺ status_line)
  | some word ↦
      context (parse_u16 word) ("invalid HTTP status code from " ⧺ authority ⧺ ": " ⧺ status_line)
]

unfoldable pub validate_http_status : String → String → ℕ → Result (Unit {0})
validate_http_status authority status_line status_code =
    if eqb status_code 200
    then ok tt
    else bail ("unexpected HTTP status from " ⧺ authority ⧺ ": " ⧺ status_line)

abbrev pub request_of : HttpEndpoint → String
request_of endpoint =
    "GET "
    ⧺ endpoint.path
    ⧺ " HTTP/1.1\r\nHost: "
    ⧺ authority_of endpoint
    ⧺ "\r\nConnection: close\r\nAccept: application/json\r\n\r\n"

module _ (network : Network) where
  -- From the connection to the first line of the response.
  unfoldable pub first_line : Trace → HttpEndpoint → Result String
  first_line t endpoint =
      Result.◌>>◌
        (context (network.connect t endpoint.host endpoint.port)
          ("failed to connect to " ⧺ authority_of endpoint))
        (Result.◌>>◌ (context (network.set_read_timeout t) "failed to set read timeout") (
          Result.◌>>◌ (context (network.set_write_timeout t) "failed to set write timeout") (
            Result.◌>>◌
              (context (network.write_all t (request_of endpoint)) "failed to write HTTP request")
              (context (network.read_line t) "failed to read HTTP response"))))

  unfoldable pub exchange : HttpEndpoint → Act String
  exchange endpoint t =
      let r = first_line t endpoint in
      (r, List.◌∷◌ (exchanged endpoint.host endpoint.port (request_of endpoint) r) t)

  unfoldable pub probe_http_status : String → Act HttpStatus
  probe_http_status url = lift (parse_http_url url) >>= λ endpoint. exchange endpoint >>= λ line.
      lift (parse_http_status_code (authority_of endpoint) (trim_line_ends line)) >>= λ code.
      return (record {
        authority = authority_of endpoint;
        status_line = trim_line_ends line;
        status_code = code;
      })

  unfoldable pub probe_http_200 : String → Act (Unit {0})
  probe_http_200 url = probe_http_status url >>= λ status.
      lift (validate_http_status status.authority status.status_line status.status_code)

-- ===== src/Cli/Http/Tests.antt =====
-- The theorem about URLs, at the address of a local server
-- (crates/infractl-cli/src/commands/service.rs).
use btc_infra_tools.Base.{◌≡◌, refl, arith}
use btc_infra_tools.Base.Text.{◌⧺◌}
use btc_infra_tools.Base.Result.{ok}
use btc_infra_tools.Cli.Http.{authority_of, parse_http_url}
use btc_infra_tools.Cli.Http.RoundTrip.{parse_http_url-authority_of}

parse_http_url-authority_of_example :
    parse_http_url (
      "http://"
      ⧺ authority_of (record { host = "node"; port = 8999; path = "/" ⧺ "api/v1/fees" })
      ⧺ "/"
      ⧺ "api/v1/fees")
    ≡ ok (record { host = "node"; port = 8999; path = "/" ⧺ "api/v1/fees" })
parse_http_url-authority_of_example =
    parse_http_url-authority_of "node" "api/v1/fees" 8999 (refl, (refl, (refl, (refl, tt))))
      (refl, (refl, (refl, (refl, tt)))) (omega arith)

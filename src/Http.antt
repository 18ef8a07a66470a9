-- ===== src/Http.antt =====
-- plugins/http/check_http.cpp: one GET request, and a look at the first piece of the response.
pub mod Verdict
use netmon_plugins.Cpp.Convert.{stoi}
use netmon_plugins.Cpp.Decimal.{to_string}
use netmon_plugins.Cpp.Result.{Result, returns, ◌>>=◌}
use netmon_plugins.Dependency.{check_openssl_available, dependency_warning}
use netmon_plugins.HttpApi.Request.{line}
use netmon_plugins.HttpApi.Response.{until_zero}
use netmon_plugins.Plugin.{ExitCode, ok, critical, unknown, PluginResult, plain_result}
use netmon_plugins.Plugin.Args.{
  Action, show_help, update, with_value, Parsed, is_option, help_option, parse_loop,
}
use netmon_plugins.Prelude.{
  Bool, true, false, ◌&&◌, ◌||◌, not, if◌then◌else◌, List, [], ◌∷◌, ◌++◌, Option, none, some,
  is_empty, ℤ, pos, eqb_ℤ, ltb_ℤ,
}
use netmon_plugins.Prelude.Text.{Bytes, codes, concat, contains}

-- The fields of `HttpPlugin`, but for the two that are never read (`warningTime`, `criticalTime`).
pub record Config : Type 0 where
  pub hostname : Bytes
  pub port : ℤ
  pub uri : Bytes
  pub use_ssl : Bool
  pub timeout_seconds : ℤ
  pub expect_string : Bytes

abbrev pub default_config : Config
default_config = record {
  hostname = [];
  port = pos 80;
  uri = codes "/";
  use_ssl = false;
  timeout_seconds = pos 10;
  expect_string = [];
}

-- The body of the loop in `parseArguments`.
unfoldable pub parse_argument : Config → Bytes → Action Config
parse_argument c a =
    if help_option a
    then show_help
    else if is_option (codes "-H") (codes "--hostname") a
    then with_value (λ v. returns (record c { hostname = v }))
    else if is_option (codes "-p") (codes "--port") a
    then with_value (λ v. stoi v >>= λ n. returns (record c { port = n }))
    else if is_option (codes "-u") (codes "--uri") a
    then with_value (λ v. returns (record c { uri = v }))
    else if is_option (codes "-S") (codes "--ssl") a
    then update (record c { use_ssl = true })
    else if is_option (codes "-s") (codes "--string") a
    then with_value (λ v. returns (record c { expect_string = v }))
    else if is_option (codes "-t") (codes "--timeout") a
    then with_value (λ v. stoi v >>= λ n. returns (record c { timeout_seconds = n }))
    else update c

unfoldable pub parse_arguments : List Bytes → Result (Parsed Config)
parse_arguments = parse_loop parse_argument default_config

unfoldable pub http_request : Bytes → ℤ → Bytes → Bytes
http_request host port path = concat (
    line (concat (codes "GET " ∷ path ∷ codes " HTTP/1.1" ∷ []))
    ∷ line (
        concat (
          codes "Host: "
          ∷ host
          ∷ (if not (eqb_ℤ port (pos 80)) && not (eqb_ℤ port (pos 443))
              then codes ":" ++ to_string port
              else [])
          ∷ []))
    ∷ line (codes "Connection: close")
    ∷ line (codes "User-Agent: NetMon-Plugins/1.0")
    ∷ line []
    ∷ [])

-- What is asked of a response, over HTTP and over HTTPS.
unfoldable pub is_expected : Bytes → Bytes → Bool
is_expected expect_string response =
    (contains (codes "HTTP/1") response && contains (codes "200") response)
    && (is_empty expect_string || contains expect_string response)

-- The network: whether TLS is used, host, port, timeout and request give the bytes of the one call of
-- `recv` or `SSL_read`, none at the end of the stream, or nothing where a step fails.
abbrev pub Exchange : Type 0
Exchange = Bool → Bytes → ℤ → ℤ → Bytes → Option Bytes

-- The end of both functions: the bytes that were read, if any, must be as expected.
unfoldable pub accepted : Bytes → Option Bytes → Bool
accepted expect_string none = false
accepted expect_string (some []) = false
accepted expect_string (some (b ∷ bytes)) = is_expected expect_string (until_zero (b ∷ bytes))

-- `checkHttp`, with `checkHttps` where TLS is asked for and compiled in.
unfoldable pub check_http : Bool → Exchange → Config → Bool
check_http built_with_ssl exchange c = accepted c.expect_string (
    exchange (built_with_ssl && c.use_ssl) c.hostname c.port c.timeout_seconds
      (http_request c.hostname c.port c.uri))

-- Without OpenSSL, HTTPS falls back to HTTP.
unfoldable pub effective : Bool → Config → Config
effective built_with_ssl c =
    if c.use_ssl && not (check_openssl_available built_with_ssl)
    then (record c { use_ssl = false; port = if eqb_ℤ c.port (pos 443) then pos 80 else c.port })
    else c

describe : Config → Bytes → Bytes → Bytes
describe c verdict outcome = concat (
    (if c.use_ssl then codes "HTTPS" else codes "HTTP")
    ∷ verdict
    ∷ c.hostname
    ∷ codes ":"
    ∷ to_string c.port
    ∷ c.uri
    ∷ outcome
    ∷ [])

unfoldable pub report : Config → Bool → PluginResult
unfolding describe
report c true = plain_result ok (describe c (codes " OK - ") (codes " returned HTTP 200"))
report c false =
    plain_result critical (describe c (codes " CRITICAL - ") (codes " did not return HTTP 200"))

-- What goes to `std::cerr`, and the result.
unfoldable pub check : Bool → Exchange → Config → Bytes × PluginResult
check built_with_ssl exchange c =
    let used = effective built_with_ssl c in
    if is_empty c.hostname
    then ([], plain_result unknown (codes "Hostname must be specified"))
    else (
      (if c.use_ssl && not (check_openssl_available built_with_ssl)
          then dependency_warning (codes "check_http") (codes "OpenSSL")
              (codes "HTTP connection only (HTTPS not available)")
          else []),
      report used (check_http built_with_ssl exchange used),
    )

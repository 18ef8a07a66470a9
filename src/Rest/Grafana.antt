-- ===== src/Rest/Grafana.antt =====
-- plugins/grafana/check_grafana.cpp. `built_with_ssl` says whether OpenSSL is compiled in.
use netmon_plugins.Dependency.{check_openssl_available, dependency_warning}
use netmon_plugins.Cpp.Result.{Result, returns, ◌>>=◌}
use netmon_plugins.Json.{Regex, extract_json_value}
use netmon_plugins.Plugin.{ok, critical, PluginResult, plain_result}
use netmon_plugins.Plugin.Args.{
  Action, show_help, update, with_text, with_number, Parsed, is_option, help_option, parse_loop,
}
use netmon_plugins.Prelude.Text.{Bytes, codes, concat, text_eq}
use netmon_plugins.Prelude.{
  Bool, true, false, ◌&&◌, ◌||◌, not, if◌then◌else◌, List, [], ◌∷◌, ◌++◌, is_empty, ℤ, pos, eqb_ℤ,
}
use netmon_plugins.Rest.{Fetch, http_get, with_status, no_host, guarded}

-- The fields of `GrafanaPlugin`.
pub record Config : Type 0 where
  pub hostname : Bytes
  pub port : ℤ
  pub timeout_seconds : ℤ
  pub username : Bytes
  pub password : Bytes
  pub use_ssl : Bool
  pub check_type : Bytes

abbrev pub default_config : Config
default_config = record {
  hostname = [];
  port = pos 3000;
  timeout_seconds = pos 10;
  username = [];
  password = [];
  use_ssl = false;
  check_type = codes "health";
}

-- The body of the loop in `parseArguments`.
unfoldable pub parse_argument : Config → Bytes → Action Config
parse_argument c a =
    if help_option a
    then show_help
    else if is_option (codes "-H") (codes "--hostname") a
    then with_text (λ v. record c { hostname = v })
    else if is_option (codes "-p") (codes "--port") a
    then with_number (λ n. record c { port = n })
    else if is_option (codes "-u") (codes "--username") a
    then with_text (λ v. record c { username = v })
    else if is_option (codes "-P") (codes "--password") a
    then with_text (λ v. record c { password = v })
    else if is_option (codes "-c") (codes "--check") a
    then with_text (λ v. record c { check_type = v })
    else if is_option (codes "-S") (codes "--ssl") a
    then update (record c { use_ssl = true })
    else if is_option (codes "-T") (codes "--timeout") a
    then with_number (λ n. record c { timeout_seconds = n })
    else update c

unfoldable pub parse_arguments : List Bytes → Result (Parsed Config)
parse_arguments = parse_loop parse_argument default_config

-- HTTPS is wanted and OpenSSL is not compiled in.
abbrev pub lacks_ssl : Bool → Config → Bool
lacks_ssl built_with_ssl c = c.use_ssl && not (check_openssl_available built_with_ssl)

-- Without OpenSSL, HTTPS falls back to HTTP.
unfoldable pub effective : Bool → Config → Config
effective built_with_ssl c = record c {
  use_ssl = if lacks_ssl built_with_ssl c then false else c.use_ssl;
}

-- What goes to `std::cerr`.
unfoldable pub warned : Bool → Config → Bytes
warned built_with_ssl c =
    if lacks_ssl built_with_ssl c
    then dependency_warning (codes "check_grafana") (codes "OpenSSL")
        (codes "HTTP connection only (HTTPS not available)")
    else []

-- Every check asks for the same page.
abbrev pub path : Bytes
path = codes "/api/health"

-- The values of `database` and `version`.
unfoldable pub judge_health : Bytes → Bytes → PluginResult
judge_health database version =
    if text_eq database (codes "ok") || text_eq database (codes "up")
    then plain_result ok (
        concat (
          codes "Grafana OK - Database: "
          ∷ database
          ∷ (if not (is_empty version) then codes ", Version: " ++ version else [])
          ∷ []))
    else plain_result critical (codes "Grafana CRITICAL - Database status: " ++ database)

unfoldable pub judge_version : Bytes → PluginResult
judge_version version =
    if not (is_empty version)
    then plain_result ok (codes "Grafana OK - Version: " ++ version)
    else plain_result ok (codes "Grafana OK - API responding")

unfoldable pub judge : Regex → Bytes → Bytes → ℤ → Result PluginResult
judge regex check_type response status =
    if not (eqb_ℤ status (pos 200)) || is_empty response
    then returns (
        with_status critical
          (codes "Grafana CRITICAL - Cannot connect to API or invalid response (status: ") status
          (codes ")"))
    else if text_eq check_type (codes "health") || text_eq check_type (codes "api")
    then (extract_json_value regex response (codes "database") >>= λ database.
        extract_json_value regex response (codes "version") >>= λ version.
        returns (judge_health database version))
    else if text_eq check_type (codes "version")
    then (extract_json_value regex response (codes "version") >>= λ version.
        returns (judge_version version))
    else returns (plain_result ok (codes "Grafana OK - API responding"))

unfoldable pub ask : Fetch → Config → Result (Bytes × ℤ)
ask fetch c =
    if not (is_empty c.username)
    then fetch c.hostname c.port path c.use_ssl c.timeout_seconds c.username c.password
    else http_get fetch c.hostname c.port path c.use_ssl c.timeout_seconds

-- What goes to `std::cerr`, and the result.
unfoldable pub check : Bool → Regex → Fetch → Config → Bytes × Result PluginResult
check built_with_ssl regex fetch c = if is_empty c.hostname then ([], returns no_host) else (
  warned built_with_ssl c,
  guarded (codes "Grafana check failed: ") (
      ask fetch (effective built_with_ssl c) >>= λ (response, status).
      judge regex c.check_type response status),
)

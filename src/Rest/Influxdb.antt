-- ===== src/Rest/Influxdb.antt =====
-- plugins/influxdb/check_influxdb.cpp.
use netmon_plugins.Cpp.Result.{Result, returns, ◌>>=◌}
use netmon_plugins.Json.{Regex, extract_json_value}
use netmon_plugins.Plugin.{ok, critical, PluginResult, plain_result}
use netmon_plugins.Plugin.Args.{
  Action, show_help, update, with_text, with_number, Parsed, is_option, help_option, parse_loop,
}
use netmon_plugins.Prelude.Text.{Bytes, codes, concat, text_eq}
use netmon_plugins.Prelude.{false, ◌||◌, not, if◌then◌else◌, List, [], ◌∷◌, is_empty, ℤ, pos, eqb_ℤ}
use netmon_plugins.Rest.{Fetch, http_get, count_places, counted, with_status, no_host, guarded}

-- The fields of `InfluxdbPlugin`.
pub record Config : Type 0 where
  pub hostname : Bytes
  pub port : ℤ
  pub timeout_seconds : ℤ
  pub username : Bytes
  pub password : Bytes
  pub check_type : Bytes

abbrev pub default_config : Config
default_config = record {
  hostname = [];
  port = pos 8086;
  timeout_seconds = pos 10;
  username = [];
  password = [];
  check_type = codes "ping";
}

-- The body of the loop in `parseArguments`.
unfoldable pub parse_argument : Config → Bytes → Action Config
parse_argument c a =
    if help_option a
    then show_help
    else if is_option (codes "-H") (codes "--hostname") a
    then with_text (λ v. record c { hostname = v })
    else if is_option (codes "-p") (codes "--port") a
    then with_number (λ n. record c { port = n })
    else if is_option (codes "-u") (codes "--username") a
    then with_text (λ v. record c { username = v })
    else if is_option (codes "-P") (codes "--password") a
    then with_text (λ v. record c { password = v })
    else if is_option (codes "-c") (codes "--check") a
    then with_text (λ v. record c { check_type = v })
    else if is_option (codes "-T") (codes "--timeout") a
    then with_number (λ n. record c { timeout_seconds = n })
    else update c

unfoldable pub parse_arguments : List Bytes → Result (Parsed Config)
parse_arguments = parse_loop parse_argument default_config

unfoldable pub path_of : Bytes → Bytes
path_of check_type =
    if text_eq check_type (codes "ping")
    then codes "/ping"
    else if text_eq check_type (codes "databases")
    then codes "/query?q=SHOW+DATABASES"
    else if text_eq check_type (codes "health")
    then codes "/health"
    else codes "/ping"

unfoldable pub judge_health : Bytes → PluginResult
judge_health status =
    if text_eq status (codes "pass") || text_eq status (codes "ok")
    then plain_result ok (codes "InfluxDB OK - Health check passed")
    else plain_result critical (
        concat
          (codes "InfluxDB CRITICAL - Health check failed (status: " ∷ status ∷ codes ")" ∷ []))

unfoldable pub judge : Regex → Bytes → Bytes → ℤ → Result PluginResult
judge regex check_type response status =
    if eqb_ℤ status (pos 0) || is_empty response
    then returns (plain_result critical (codes "InfluxDB CRITICAL - Cannot connect to API server"))
    else if text_eq check_type (codes "ping")
    then (if eqb_ℤ status (pos 204) || eqb_ℤ status (pos 200)
        then returns (plain_result ok (codes "InfluxDB OK - Server is responding"))
        else returns (
            with_status critical (codes "InfluxDB CRITICAL - Ping failed (status: ") status
              (codes ")")))
    else if text_eq check_type (codes "health")
    then (if eqb_ℤ status (pos 200)
        then (extract_json_value regex response (codes "status") >>= λ text.
            returns (judge_health text))
        else returns (
            with_status critical (codes "InfluxDB CRITICAL - Health check failed (status: ") status
              (codes ")")))
    else if text_eq check_type (codes "databases")
    then (if eqb_ℤ status (pos 200)
        then returns (
            counted (codes "InfluxDB OK - ") (codes " databases") (codes "databases=")
              (count_places (codes "\"name\"") response))
        else if eqb_ℤ status (pos 401) || eqb_ℤ status (pos 403)
        then returns (
            with_status critical (codes "InfluxDB CRITICAL - Authentication failed (status ") status
              (codes ")"))
        else returns (
            with_status critical (codes "InfluxDB CRITICAL - Query failed (status: ") status
              (codes ")")))
    else returns (plain_result ok (codes "InfluxDB OK - API responding"))

-- With a user the request is authenticated.
unfoldable pub ask : Fetch → Config → Result (Bytes × ℤ)
ask fetch c =
    if not (is_empty c.username)
    then fetch c.hostname c.port (path_of c.check_type) false c.timeout_seconds c.username
        c.password
    else http_get fetch c.hostname c.port (path_of c.check_type) false c.timeout_seconds

unfoldable pub check : Regex → Fetch → Config → Result PluginResult
check regex fetch c =
    if is_empty c.hostname
    then returns no_host
    else guarded (codes "InfluxDB check failed: ")
        (ask fetch c >>= λ (response, status). judge regex c.check_type response status)

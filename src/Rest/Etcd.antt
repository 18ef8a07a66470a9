-- ===== src/Rest/Etcd.antt =====
-- plugins/etcd/check_etcd.cpp.
use netmon_plugins.Cpp.Result.{Result, returns, ◌>>=◌}
use netmon_plugins.Json.{Regex, extract_json_value}
use netmon_plugins.Plugin.{ok, critical, PluginResult, plain_result}
use netmon_plugins.Plugin.Args.{
  Action, show_help, update, with_text, with_number, Parsed, is_option, help_option, parse_loop,
}
use netmon_plugins.Prelude.Text.{Bytes, codes, contains, text_eq}
use netmon_plugins.Prelude.{false, ◌||◌, if◌then◌else◌, List, [], ◌++◌, is_empty, ℤ, pos, eqb_ℤ}
use netmon_plugins.Rest.{Fetch, http_get, count_places, counted, with_status, no_host, guarded}

-- The fields of `EtcdPlugin`.
pub record Config : Type 0 where
  pub hostname : Bytes
  pub port : ℤ
  pub timeout_seconds : ℤ
  pub check_type : Bytes

abbrev pub default_config : Config
default_config = record {
  hostname = [];
  port = pos 2379;
  timeout_seconds = pos 10;
  check_type = codes "health";
}

-- The body of the loop in `parseArguments`.
unfoldable pub parse_argument : Config → Bytes → Action Config
parse_argument c a =
    if help_option a
    then show_help
    else if is_option (codes "-H") (codes "--hostname") a
    then with_text (λ v. record c { hostname = v })
    else if is_option (codes "-p") (codes "--port") a
    then with_number (λ n. record c { port = n })
    else if is_option (codes "-c") (codes "--check") a
    then with_text (λ v. record c { check_type = v })
    else if is_option (codes "-T") (codes "--timeout") a
    then with_number (λ n. record c { timeout_seconds = n })
    else update c

unfoldable pub parse_arguments : List Bytes → Result (Parsed Config)
parse_arguments = parse_loop parse_argument default_config

unfoldable pub path_of : Bytes → Bytes
path_of check_type =
    if text_eq check_type (codes "health")
    then codes "/health"
    else if text_eq check_type (codes "version")
    then codes "/version"
    else if text_eq check_type (codes "members")
    then codes "/v2/members"
    else codes "/health"

unfoldable pub judge_health : Bytes → Bytes → PluginResult
judge_health response health =
    if text_eq health (codes "true") || contains (codes "\"health\":true") response
    then plain_result ok (codes "etcd OK - Cluster is healthy")
    else plain_result critical (codes "etcd CRITICAL - Cluster is unhealthy")

-- The version of the server, or else of the cluster.
unfoldable pub version_of : Regex → Bytes → Result Bytes
version_of regex response = extract_json_value regex response (codes "etcdserver") >>= λ version.
    if is_empty version
    then extract_json_value regex response (codes "etcdcluster")
    else returns version

unfoldable pub judge : Regex → Bytes → Bytes → ℤ → Result PluginResult
judge regex check_type response status =
    if eqb_ℤ status (pos 0) || is_empty response
    then returns (plain_result critical (codes "etcd CRITICAL - Cannot connect to API server"))
    else if text_eq check_type (codes "health")
    then (if eqb_ℤ status (pos 200)
        then (extract_json_value regex response (codes "health") >>= λ health.
            returns (judge_health response health))
        else returns (
            with_status critical (codes "etcd CRITICAL - Health check failed (status: ") status
              (codes ")")))
    else if text_eq check_type (codes "version")
    then (if eqb_ℤ status (pos 200)
        then (version_of regex response >>= λ version.
            returns (plain_result ok (codes "etcd OK - Version: " ++ version)))
        else returns (
            with_status critical (codes "etcd CRITICAL - Cannot get version (status: ") status
              (codes ")")))
    else if text_eq check_type (codes "members")
    then (if eqb_ℤ status (pos 200)
        then returns (
            counted (codes "etcd OK - ") (codes " cluster members") (codes "members=")
              (count_places (codes "\"id\"") response))
        else returns (
            with_status critical (codes "etcd CRITICAL - Cannot get members (status: ") status
              (codes ")")))
    else returns (plain_result ok (codes "etcd OK - API responding"))

unfoldable pub check : Regex → Fetch → Config → Result PluginResult
check regex fetch c =
    if is_empty c.hostname
    then returns no_host
    else guarded (codes "etcd check failed: ") (
        http_get fetch c.hostname c.port (path_of c.check_type) false c.timeout_seconds
        >>= λ (response, status). judge regex c.check_type response status)

-- ===== src/Rest/Ceph.antt =====
-- plugins/ceph/check_ceph.cpp.
use netmon_plugins.Cpp.Result.{Result, returns, ◌>>=◌}
use netmon_plugins.Cpp.Decimal.{to_string}
use netmon_plugins.Json.{Regex, extract_json_value}
use netmon_plugins.Plugin.{ok, warning, critical, PluginResult, plain_result}
use netmon_plugins.Plugin.Args.{
  Action, show_help, update, with_text, with_number, Parsed, is_option, help_option, parse_loop,
}
use netmon_plugins.Prelude.Text.{Bytes, codes, concat, text_eq}
use netmon_plugins.Prelude.{
  false, ◌||◌, not, if◌then◌else◌, List, [], ◌∷◌, ◌++◌, is_empty, ℤ, pos, eqb_ℤ,
}
use netmon_plugins.Rest.{Fetch, with_status, no_host, guarded}

-- The fields of `CephPlugin`.
pub record Config : Type 0 where
  pub hostname : Bytes
  pub port : ℤ
  pub timeout_seconds : ℤ
  pub username : Bytes
  pub password : Bytes
  pub check_type : Bytes

abbrev pub default_config : Config
default_config = record {
  hostname = [];
  port = pos 5000;
  timeout_seconds = pos 10;
  username = [];
  password = [];
  check_type = codes "health";
}

-- The body of the loop in `parseArguments`.
unfoldable pub parse_argument : Config → Bytes → Action Config
parse_argument c a =
    if help_option a
    then show_help
    else if is_option (codes "-H") (codes "--hostname") a
    then with_text (λ v. record c { hostname = v })
    else if is_option (codes "-p") (codes "--port") a
    then with_number (λ n. record c { port = n })
    else if is_option (codes "-u") (codes "--username") a
    then with_text (λ v. record c { username = v })
    else if is_option (codes "-P") (codes "--password") a
    then with_text (λ v. record c { password = v })
    else if is_option (codes "-c") (codes "--check") a
    then with_text (λ v. record c { check_type = v })
    else if is_option (codes "-t") (codes "--timeout") a
    then with_number (λ n. record c { timeout_seconds = n })
    else update c

unfoldable pub parse_arguments : List Bytes → Result (Parsed Config)
parse_arguments = parse_loop parse_argument default_config

unfoldable pub path_of : Bytes → Bytes
path_of check_type =
    if text_eq check_type (codes "health")
    then codes "/api/auth"
    else if text_eq check_type (codes "status")
    then codes "/api/status"
    else if text_eq check_type (codes "osd")
    then codes "/api/osd"
    else codes "/api/auth"

-- The value of `health`, which may be missing.
unfoldable pub judge_health : Bytes → ℤ → PluginResult
judge_health health status =
    if not (is_empty health)
    then (if text_eq health (codes "HEALTH_OK") || text_eq health (codes "ok")
        then plain_result ok (codes "Ceph OK - Cluster health: " ++ health)
        else if text_eq health (codes "HEALTH_WARN") || text_eq health (codes "warning")
        then plain_result warning (codes "Ceph WARNING - Cluster health: " ++ health)
        else plain_result critical (codes "Ceph CRITICAL - Cluster health: " ++ health))
    else with_status ok (codes "Ceph OK - API responding (status: ") status (codes ")")

-- The value of `status` is searched for, and not used.
unfoldable pub judge : Regex → Config → Bytes → ℤ → Result PluginResult
judge regex c response status =
    if eqb_ℤ status (pos 0) || is_empty response
    then returns (
        plain_result critical (
          concat (
            codes "Ceph CRITICAL - Cannot connect to REST API on "
            ∷ c.hostname
            ∷ codes ":"
            ∷ to_string c.port
            ∷ codes " (REST API may not be enabled)"
            ∷ [])))
    else if text_eq c.check_type (codes "health")
    then returns (
        if eqb_ℤ status (pos 200) || eqb_ℤ status (pos 401)
        then plain_result ok (
            concat (
              codes "Ceph OK - REST API is responding on "
              ∷ c.hostname
              ∷ codes ":"
              ∷ to_string c.port
              ∷ []))
        else with_status critical (codes "Ceph CRITICAL - REST API returned status ") status [])
    else if text_eq c.check_type (codes "status") || text_eq c.check_type (codes "osd")
    then (if eqb_ℤ status (pos 200)
        then (extract_json_value regex response (codes "health") >>= λ health.
            extract_json_value regex response (codes "status") >>= λ unused.
            returns (judge_health health status))
        else if eqb_ℤ status (pos 401) || eqb_ℤ status (pos 403)
        then returns (
            with_status critical (codes "Ceph CRITICAL - Authentication failed (status ") status
              (codes ")"))
        else returns
            (with_status critical (codes "Ceph CRITICAL - API returned status ") status []))
    else returns (plain_result ok (codes "Ceph OK - API server is responding"))

unfoldable pub check : Regex → Fetch → Config → Result PluginResult
check regex fetch c =
    if is_empty c.hostname
    then returns no_host
    else guarded (codes "Ceph check failed: ") (
        fetch c.hostname c.port (path_of c.check_type) false c.timeout_seconds c.username c.password
        >>= λ (response, status). judge regex c response status)

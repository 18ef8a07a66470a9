-- ===== src/Rest/Nomad.antt =====
-- plugins/nomad/check_nomad.cpp. The token is stored and never sent.
use netmon_plugins.Cpp.Result.{Result, returns, ◌>>=◌}
use netmon_plugins.Json.{Regex}
use netmon_plugins.Plugin.{ok, critical, PluginResult, plain_result}
use netmon_plugins.Plugin.Args.{
  Action, show_help, update, with_text, with_number, Parsed, is_option, help_option, parse_loop,
}
use netmon_plugins.Prelude.Text.{Bytes, codes, text_eq}
use netmon_plugins.Prelude.{
  false, ◌||◌, not, if◌then◌else◌, List, [], ◌++◌, is_empty, ℤ, pos, eqb_ℤ,
}
use netmon_plugins.Rest.{
  Fetch, http_get, leader_of, count_places, counted, with_status, no_host, guarded,
}

-- The fields of `NomadPlugin`.
pub record Config : Type 0 where
  pub hostname : Bytes
  pub port : ℤ
  pub timeout_seconds : ℤ
  pub token : Bytes
  pub check_type : Bytes

abbrev pub default_config : Config
default_config = record {
  hostname = [];
  port = pos 4646;
  timeout_seconds = pos 10;
  token = [];
  check_type = codes "health";
}

-- The body of the loop in `parseArguments`.
unfoldable pub parse_argument : Config → Bytes → Action Config
parse_argument c a =
    if help_option a
    then show_help
    else if is_option (codes "-H") (codes "--hostname") a
    then with_text (λ v. record c { hostname = v })
    else if is_option (codes "-p") (codes "--port") a
    then with_number (λ n. record c { port = n })
    else if is_option (codes "-t") (codes "--token") a
    then with_text (λ v. record c { token = v })
    else if is_option (codes "-c") (codes "--check") a
    then with_text (λ v. record c { check_type = v })
    else if is_option (codes "-T") (codes "--timeout") a
    then with_number (λ n. record c { timeout_seconds = n })
    else update c

unfoldable pub parse_arguments : List Bytes → Result (Parsed Config)
parse_arguments = parse_loop parse_argument default_config

unfoldable pub path_of : Bytes → Bytes
path_of check_type =
    if text_eq check_type (codes "health")
    then codes "/v1/status/leader"
    else if text_eq check_type (codes "jobs")
    then codes "/v1/jobs"
    else if text_eq check_type (codes "nodes")
    then codes "/v1/nodes"
    else if text_eq check_type (codes "leader")
    then codes "/v1/status/leader"
    else codes "/v1/status/leader"

unfoldable pub judge_leader : Bytes → PluginResult
judge_leader leader =
    if not (is_empty leader)
    then plain_result ok (codes "Nomad OK - Leader: " ++ leader)
    else plain_result critical (codes "Nomad CRITICAL - No leader elected")

unfoldable pub judge : Regex → Bytes → Bytes → ℤ → Result PluginResult
judge regex check_type response status =
    if not (eqb_ℤ status (pos 200)) || is_empty response
    then returns (
        with_status critical
          (codes "Nomad CRITICAL - Cannot connect to API or invalid response (status: ") status
          (codes ")"))
    else if text_eq check_type (codes "health") || text_eq check_type (codes "leader")
    then (leader_of regex response >>= λ leader. returns (judge_leader leader))
    else if text_eq check_type (codes "jobs")
    then returns (
        counted (codes "Nomad OK - ") (codes " jobs") (codes "jobs=")
          (count_places (codes "\"ID\"") response))
    else if text_eq check_type (codes "nodes")
    then returns (
        counted (codes "Nomad OK - ") (codes " nodes") (codes "nodes=")
          (count_places (codes "\"ID\"") response))
    else returns (plain_result ok (codes "Nomad OK - API responding"))

unfoldable pub check : Regex → Fetch → Config → Result PluginResult
check regex fetch c =
    if is_empty c.hostname
    then returns no_host
    else guarded (codes "Nomad check failed: ") (
        http_get fetch c.hostname c.port (path_of c.check_type) false c.timeout_seconds
        >>= λ (response, status). judge regex c.check_type response status)

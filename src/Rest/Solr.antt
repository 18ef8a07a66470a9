-- ===== src/Rest/Solr.antt =====
-- plugins/solr/check_solr.cpp.
use netmon_plugins.Cpp.Result.{Result, returns, ◌>>=◌}
use netmon_plugins.Json.{Regex, extract_json_value}
use netmon_plugins.Plugin.{ok, critical, PluginResult, plain_result}
use netmon_plugins.Plugin.Args.{
  Action, show_help, update, with_text, with_number, Parsed, is_option, help_option, parse_loop,
}
use netmon_plugins.Prelude.Text.{Bytes, codes, contains, concat, text_eq}
use netmon_plugins.Prelude.{false, ◌||◌, not, if◌then◌else◌, List, [], ◌∷◌, is_empty, ℤ, pos, eqb_ℤ}
use netmon_plugins.Rest.{Fetch, http_get, count_places, counted, with_status, no_host, guarded}

-- The fields of `SolrPlugin`.
pub record Config : Type 0 where
  pub hostname : Bytes
  pub port : ℤ
  pub timeout_seconds : ℤ
  pub collection : Bytes
  pub check_type : Bytes

abbrev pub default_config : Config
default_config = record {
  hostname = [];
  port = pos 8983;
  timeout_seconds = pos 10;
  collection = [];
  check_type = codes "admin";
}

-- The body of the loop in `parseArguments`.
unfoldable pub parse_argument : Config → Bytes → Action Config
parse_argument c a =
    if help_option a
    then show_help
    else if is_option (codes "-H") (codes "--hostname") a
    then with_text (λ v. record c { hostname = v })
    else if is_option (codes "-p") (codes "--port") a
    then with_number (λ n. record c { port = n })
    else if is_option (codes "-c") (codes "--collection") a
    then with_text (λ v. record c { collection = v })
    else if is_option (codes "-C") (codes "--check") a
    then with_text (λ v. record c { check_type = v })
    else if is_option (codes "-t") (codes "--timeout") a
    then with_number (λ n. record c { timeout_seconds = n })
    else update c

unfoldable pub parse_arguments : List Bytes → Result (Parsed Config)
parse_arguments = parse_loop parse_argument default_config

unfoldable pub path_of : Bytes → Bytes → Bytes
path_of collection check_type =
    if text_eq check_type (codes "admin")
    then codes "/solr/admin/ping"
    else if text_eq check_type (codes "ping")
    then (if not (is_empty collection)
        then concat (codes "/solr/" ∷ collection ∷ codes "/admin/ping" ∷ [])
        else codes "/solr/admin/ping")
    else if text_eq check_type (codes "cores")
    then codes "/solr/admin/cores?action=STATUS"
    else codes "/solr/admin/ping"

unfoldable pub judge_ping : Bytes → Bytes → PluginResult
judge_ping response status =
    if text_eq status (codes "OK") || contains (codes "\"status\":\"OK\"") response
    then plain_result ok (codes "Solr OK - Ping successful")
    else plain_result critical
        (concat (codes "Solr CRITICAL - Ping failed (status: " ∷ status ∷ codes ")" ∷ []))

unfoldable pub judge : Regex → Bytes → Bytes → ℤ → Result PluginResult
judge regex check_type response status =
    if not (eqb_ℤ status (pos 200)) || is_empty response
    then returns (
        with_status critical
          (codes "Solr CRITICAL - Cannot connect to API or invalid response (status: ") status
          (codes ")"))
    else if text_eq check_type (codes "ping") || text_eq check_type (codes "admin")
    then (extract_json_value regex response (codes "status") >>= λ text.
        returns (judge_ping response text))
    else if text_eq check_type (codes "cores")
    then returns (
        counted (codes "Solr OK - ") (codes " cores") (codes "cores=")
          (count_places (codes "\"name\"") response))
    else returns (plain_result ok (codes "Solr OK - API responding"))

unfoldable pub check : Regex → Fetch → Config → Result PluginResult
check regex fetch c =
    if is_empty c.hostname
    then returns no_host
    else guarded (codes "Solr check failed: ") (
        http_get fetch c.hostname c.port (path_of c.collection c.check_type) false c.timeout_seconds
        >>= λ (response, status). judge regex c.check_type response status)

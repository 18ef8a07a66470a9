-- ===== src/Rest/Vault.antt =====
-- plugins/vault/check_vault.cpp. The token is stored and never sent.
use netmon_plugins.Cpp.Result.{Result, returns, ◌>>=◌}
use netmon_plugins.Json.{Regex, extract_json_value}
use netmon_plugins.Plugin.{ok, warning, critical, PluginResult, plain_result}
use netmon_plugins.Plugin.Args.{
  Action, show_help, update, with_text, with_number, Parsed, is_option, help_option, parse_loop,
}
use netmon_plugins.Prelude.Text.{Bytes, codes, text_eq}
use netmon_plugins.Prelude.{false, ◌||◌, if◌then◌else◌, List, [], is_empty, ℤ, pos, eqb_ℤ}
use netmon_plugins.Rest.{Fetch, http_get, with_status, no_host, guarded}

-- The fields of `VaultPlugin`.
pub record Config : Type 0 where
  pub hostname : Bytes
  pub port : ℤ
  pub timeout_seconds : ℤ
  pub token : Bytes
  pub check_type : Bytes

abbrev pub default_config : Config
default_config = record {
  hostname = [];
  port = pos 8200;
  timeout_seconds = pos 10;
  token = [];
  check_type = codes "health";
}

-- The body of the loop in `parseArguments`.
unfoldable pub parse_argument : Config → Bytes → Action Config
parse_argument c a =
    if help_option a
    then show_help
    else if is_option (codes "-H") (codes "--hostname") a
    then with_text (λ v. record c { hostname = v })
    else if is_option (codes "-p") (codes "--port") a
    then with_number (λ n. record c { port = n })
    else if is_option (codes "-t") (codes "--token") a
    then with_text (λ v. record c { token = v })
    else if is_option (codes "-c") (codes "--check") a
    then with_text (λ v. record c { check_type = v })
    else if is_option (codes "-T") (codes "--timeout") a
    then with_number (λ n. record c { timeout_seconds = n })
    else update c

unfoldable pub parse_arguments : List Bytes → Result (Parsed Config)
parse_arguments = parse_loop parse_argument default_config

unfoldable pub path_of : Bytes → Bytes
path_of check_type =
    if text_eq check_type (codes "health")
    then codes "/v1/sys/health"
    else if text_eq check_type (codes "seal")
    then codes "/v1/sys/seal-status"
    else if text_eq check_type (codes "status")
    then codes "/v1/sys/health"
    else codes "/v1/sys/health"

-- The values of `sealed` and `initialized`.
unfoldable pub judge_health : Bytes → Bytes → PluginResult
judge_health is_sealed is_initialized =
    if text_eq is_sealed (codes "true")
    then plain_result critical (codes "Vault CRITICAL - Vault is sealed")
    else if text_eq is_initialized (codes "false")
    then plain_result warning (codes "Vault WARNING - Vault is not initialized")
    else plain_result ok (codes "Vault OK - Vault is healthy, initialized, and unsealed")

unfoldable pub judge_seal : Bytes → PluginResult
judge_seal is_sealed =
    if text_eq is_sealed (codes "true")
    then plain_result critical (codes "Vault CRITICAL - Vault is sealed")
    else plain_result ok (codes "Vault OK - Vault is unsealed")

unfoldable pub judge : Regex → Bytes → Bytes → ℤ → Result PluginResult
judge regex check_type response status =
    if eqb_ℤ status (pos 0) || is_empty response
    then returns (plain_result critical (codes "Vault CRITICAL - Cannot connect to API server"))
    else if text_eq check_type (codes "health")
    then (if eqb_ℤ status (pos 200)
        then (extract_json_value regex response (codes "sealed") >>= λ is_sealed.
            extract_json_value regex response (codes "initialized") >>= λ is_initialized.
            returns (judge_health is_sealed is_initialized))
        else if eqb_ℤ status (pos 429) || eqb_ℤ status (pos 472) || eqb_ℤ status (pos 473)
        then returns (
            with_status ok (codes "Vault OK - Vault is in standby/DR mode (status: ") status
              (codes ")"))
        else if eqb_ℤ status (pos 503)
        then returns (plain_result critical (codes "Vault CRITICAL - Vault is sealed"))
        else returns
            (with_status critical (codes "Vault CRITICAL - Unexpected status code: ") status []))
    else if text_eq check_type (codes "seal")
    then (if eqb_ℤ status (pos 200)
        then (extract_json_value regex response (codes "sealed") >>= λ is_sealed.
            returns (judge_seal is_sealed))
        else returns (
            with_status critical (codes "Vault CRITICAL - Cannot check seal status (status: ")
              status (codes ")")))
    else if eqb_ℤ status (pos 200)
    then returns (plain_result ok (codes "Vault OK - API is responding"))
    else returns (with_status critical (codes "Vault CRITICAL - API returned status ") status [])

unfoldable pub check : Regex → Fetch → Config → Result PluginResult
check regex fetch c =
    if is_empty c.hostname
    then returns no_host
    else guarded (codes "Vault check failed: ") (
        http_get fetch c.hostname c.port (path_of c.check_type) false c.timeout_seconds
        >>= λ (response, status). judge regex c.check_type response status)

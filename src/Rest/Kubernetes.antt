-- ===== src/Rest/Kubernetes.antt =====
-- plugins/kubernetes/check_kubernetes.cpp. `built_with_ssl` says whether OpenSSL is compiled in. The token decides
-- between two equal calls and is never sent.
pub mod Items
use netmon_plugins.Dependency.{check_openssl_available, dependency_warning}
use netmon_plugins.Cpp.Result.{Result, returns, ◌>>=◌}
use netmon_plugins.Cpp.Decimal.{to_string_ℕ}
use netmon_plugins.Json.{Regex, extract_json_value}
use netmon_plugins.Plugin.{ok, critical, PluginResult, plain_result}
use netmon_plugins.Plugin.Args.{
  Action, show_help, update, with_text, with_number, Parsed, is_option, help_option, parse_loop,
}
use netmon_plugins.Prelude.Text.{Bytes, codes, contains, concat, text_eq, split_at_first}
use netmon_plugins.Prelude.{
  ℕ, Bool, true, false, ◌&&◌, ◌||◌, ◌==◌, ◌-◌, not, if◌then◌else◌, List, [], ◌∷◌, is_empty, ℤ, pos,
  eqb_ℤ, minus_one, ◌+ℤ◌, ltb, suc, none, some,
}
use netmon_plugins.Rest.{Fetch, http_get, with_status, no_host, guarded}

-- The fields of `KubernetesPlugin`, but for `caCertPath`, which is never read.
pub record Config : Type 0 where
  pub hostname : Bytes
  pub port : ℤ
  pub token : Bytes
  pub timeout_seconds : ℤ
  pub use_ssl : Bool
  pub check_type : Bytes

abbrev pub default_config : Config
default_config = record {
  hostname = [];
  port = pos 6443;
  token = [];
  timeout_seconds = pos 10;
  use_ssl = true;
  check_type = codes "health";
}

-- The body of the loop in `parseArguments`.
unfoldable pub parse_argument : Config → Bytes → Action Config
parse_argument c a =
    if help_option a
    then show_help
    else if is_option (codes "-H") (codes "--hostname") a
    then with_text (λ v. record c { hostname = v })
    else if is_option (codes "-p") (codes "--port") a
    then with_number (λ n. record c { port = n })
    else if is_option (codes "-t") (codes "--token") a
    then with_text (λ v. record c { token = v })
    else if is_option (codes "-c") (codes "--check") a
    then with_text (λ v. record c { check_type = v })
    else if is_option (codes "-T") (codes "--timeout") a
    then with_number (λ n. record c { timeout_seconds = n })
    else if is_option (codes "-S") (codes "--ssl") a
    then update (record c { use_ssl = true })
    else if text_eq a (codes "--no-ssl")
    then update (record c { use_ssl = false })
    else update c

unfoldable pub parse_arguments : List Bytes → Result (Parsed Config)
parse_arguments = parse_loop parse_argument default_config

-- HTTPS is wanted and OpenSSL is not compiled in.
abbrev pub lacks_ssl : Bool → Config → Bool
lacks_ssl built_with_ssl c = c.use_ssl && not (check_openssl_available built_with_ssl)

-- Without OpenSSL, HTTPS falls back to HTTP.
unfoldable pub effective : Bool → Config → Config
effective built_with_ssl c = record c {
  use_ssl = if lacks_ssl built_with_ssl c then false else c.use_ssl;
  port = if lacks_ssl built_with_ssl c && eqb_ℤ c.port (pos 6443) then pos 8080 else c.port;
}

-- What goes to `std::cerr`.
unfoldable pub warned : Bool → Config → Bytes
warned built_with_ssl c =
    if lacks_ssl built_with_ssl c
    then dependency_warning (codes "check_kubernetes") (codes "OpenSSL")
        (codes "HTTP connection only (HTTPS not available)")
    else []

unfoldable pub path_of : Bytes → Bytes
path_of check_type =
    if text_eq check_type (codes "health")
    then codes "/healthz"
    else if text_eq check_type (codes "nodes")
    then codes "/api/v1/nodes"
    else if text_eq check_type (codes "pods")
    then codes "/api/v1/pods"
    else codes "/healthz"

-- `braceCount` behind a byte.
abbrev pub depth_behind : ℤ → ℕ → ℤ
depth_behind depth c =
    if c == b'{' then depth +ℤ pos 1 else if c == b'}' then depth +ℤ minus_one else depth

-- `response[pos] == ']'`, which is no bracket at the end of the text
abbrev pub at_bracket : Bytes → Bool
at_bracket [] = false
at_bracket (c ∷ s) = c == b']'

-- The loop over the items, from the byte behind the bracket on.
unfoldable pub count_objects : ℤ → ℕ → Bytes → ℕ
count_objects depth items [] = items
count_objects depth items (c ∷ s) =
    let deeper = depth_behind depth c in
    let more = if c == b'}' && eqb_ℤ deeper (pos 0) then suc items else items in
    let rest = count_objects deeper more s in
    if at_bracket s && eqb_ℤ deeper (pos 0) then more else rest

-- `response.find("[", itemsPos)` starts at the place of `"items"`, which has no bracket.
unfoldable pub count_items : Bytes → ℕ
count_items response = elim (split_at_first (codes "\"items\"") response) [
  | none ↦ 0
  | some (earlier, behind) ↦ elim (split_at_first (codes "[") behind) [
    | none ↦ 0
    | some (between, rest) ↦ count_objects (pos 0) 0 rest
  ]
]

unfoldable pub report_items : Bytes → Bytes → ℕ → PluginResult
report_items check_type kind items = record {
  code = ok;
  message = concat (
      codes "Kubernetes OK - "
      ∷ kind
      ∷ codes " API responding"
      ∷ (if ltb 0 items
          then concat (codes " (" ∷ to_string_ℕ items ∷ codes " " ∷ check_type ∷ codes ")" ∷ [])
          else [])
      ∷ []);
  perfdata = concat (check_type ∷ codes "=" ∷ to_string_ℕ items ∷ []);
}

unfoldable pub judge : Regex → Bytes → Bytes → ℤ → Result PluginResult
judge regex check_type response status =
    if eqb_ℤ status (pos 0) || is_empty response
    then returns (
        plain_result critical
          (codes "Kubernetes CRITICAL - Cannot connect to API server or invalid response"))
    else if text_eq check_type (codes "health")
    then returns (
        if eqb_ℤ status (pos 200)
          && (text_eq response (codes "ok") || contains (codes "ok") response)
        then plain_result ok (codes "Kubernetes OK - Health check passed")
        else plain_result critical (codes "Kubernetes CRITICAL - Health check failed"))
    else if text_eq check_type (codes "nodes") || text_eq check_type (codes "pods")
    then (if eqb_ℤ status (pos 200)
        then (extract_json_value regex response (codes "kind") >>= λ kind.
            returns (report_items check_type kind (count_items response)))
        else if eqb_ℤ status (pos 401) || eqb_ℤ status (pos 403)
        then returns (
            with_status critical (codes "Kubernetes CRITICAL - Authentication failed (status ")
              status (codes ")"))
        else returns
            (with_status critical (codes "Kubernetes CRITICAL - API returned status ") status []))
    else returns (plain_result ok (codes "Kubernetes OK - API server is responding"))

unfoldable pub ask : Fetch → Config → Result (Bytes × ℤ)
ask fetch c =
    if not (is_empty c.token)
    then http_get fetch c.hostname c.port (path_of c.check_type) c.use_ssl c.timeout_seconds
    else http_get fetch c.hostname c.port (path_of c.check_type) c.use_ssl c.timeout_seconds

-- What goes to `std::cerr`, and the result.
unfoldable pub check : Bool → Regex → Fetch → Config → Bytes × Result PluginResult
check built_with_ssl regex fetch c = if is_empty c.hostname then ([], returns no_host) else (
  warned built_with_ssl c,
  guarded (codes "Kubernetes check failed: ") (
      ask fetch (effective built_with_ssl c) >>= λ (response, status).
      judge regex c.check_type response status),
)

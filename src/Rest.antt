-- ===== src/Rest.antt =====
-- What the plugins that ask an HTTP interface share: `httpGet` of src/common/http_api.cpp, and a loop that counts the
-- places of a text, which the plugins have in copies. How an exchange ends is the argument `fetch`, which stands for
-- `httpGetAuth`: the body and the status code, where 0 says that there is no answer.
pub mod Counting
pub mod Consul
pub mod Nomad
pub mod Solr
pub mod Etcd
pub mod Vault
pub mod Influxdb
pub mod Ceph
pub mod Grafana
pub mod Kubernetes
pub mod Kafka
pub mod Statuses
use netmon_plugins.Cpp.Result.{Result, returns, ◌>>=◌, catch_std}
use netmon_plugins.Cpp.Decimal.{to_string, to_string_ℕ}
use netmon_plugins.Json.{Regex, extract_json_value}
use netmon_plugins.Plugin.{ok, unknown, ExitCode, PluginResult, plain_result}
use netmon_plugins.Prelude.Text.{Bytes, codes, concat, split_at_first}
use netmon_plugins.Prelude.{
  ℕ, zero, suc, Bool, if◌then◌else◌, [], ◌∷◌, ◌++◌, none, some, is_empty, length, take, not, ◌==◌,
  ℤ,
}

-- Host, port, path, TLS, timeout, user and password.
abbrev pub Fetch : Type 0
Fetch = Bytes → ℤ → Bytes → Bool → ℤ → Bytes → Bytes → Result (Bytes × ℤ)

unfoldable pub http_get : Fetch → Bytes → ℤ → Bytes → Bool → ℤ → Result (Bytes × ℤ)
http_get fetch host port path use_ssl timeout = fetch host port path use_ssl timeout [] []

-- `while ((pos = response.find(word, pos)) != npos) { count++; pos += …; }`, with the length of `word`, on fuel.
unfoldable pub count_from : ℕ → Bytes → Bytes → ℕ
count_from zero word s = 0
count_from (suc fuel) word s = elim (split_at_first word s) [
  | none ↦ 0
  | some (passed, rest) ↦ suc (count_from fuel word rest)
]

-- Each round passes a byte at least.
unfoldable pub count_places : Bytes → Bytes → ℕ
count_places word s = count_from (suc (length s)) word s

-- `service OK - n things`, with the number as performance data.
abbrev pub counted : Bytes → Bytes → Bytes → ℕ → PluginResult
counted start things label n = record {
  code = ok;
  message = concat (start ∷ to_string_ℕ n ∷ things ∷ []);
  perfdata = label ++ to_string_ℕ n;
}

-- A text with the status code in it.
abbrev pub with_status : ExitCode → Bytes → ℤ → Bytes → PluginResult
with_status code start status finish =
    plain_result code (concat (start ∷ to_string status ∷ finish ∷ []))

abbrev pub no_host : PluginResult
no_host = plain_result unknown (codes "Hostname must be specified")

-- `catch (const std::exception& e)`
abbrev pub guarded : Bytes → Result PluginResult → Result PluginResult
guarded text m = catch_std m (λ what. plain_result unknown (text ++ what))

-- `response[0] == '"'` and `response.substr(1, response.length() - 2)`
abbrev pub unquoted : Bytes → Bytes
unquoted [] = []
unquoted (c ∷ []) = if c == 34 then [] else c ∷ []
unquoted (c ∷ d ∷ s) = if c == 34 then take (length s) (d ∷ s) else c ∷ d ∷ s

-- The leader's address in check_consul and check_nomad: a value of the answer, or the answer itself without the quotes around it. A length of
-- -1 is a very large one.
unfoldable pub leader_of : Regex → Bytes → Result Bytes
leader_of regex response = extract_json_value regex response (codes "leader") >>= λ leader.
    if not (is_empty leader) then returns leader else returns (unquoted response)

-- ===== src/Rest/Kafka.antt =====
-- plugins/kafka/check_kafka.cpp (the POSIX branch): whether the broker's port takes connections, or what an HTTP
-- interface lists.
use netmon_plugins.Net.{
  Io, finish, call, getaddrinfo, socket, connect, freeaddrinfo, close, ◌>>=◌, ◌>>◌,
}
use netmon_plugins.Net.Tcp.{act, set_timeouts}
use netmon_plugins.Cpp.Result
use netmon_plugins.Cpp.Result.{Result, returns}
use netmon_plugins.Cpp.Decimal.{to_string}
use netmon_plugins.Plugin.{ok, critical, PluginResult, plain_result}
use netmon_plugins.Plugin.Args.{
  Action, show_help, update, with_text, with_number, Parsed, is_option, help_option, parse_loop,
}
use netmon_plugins.Prelude.Text.{Bytes, codes, concat, text_eq}
use netmon_plugins.Prelude.{false, not, if◌then◌else◌, List, [], ◌∷◌, is_empty, ℤ, pos, eqb_ℤ}
use netmon_plugins.Rest.{Fetch, http_get, count_places, counted, with_status, no_host, guarded}

-- The fields of `KafkaPlugin`, but for `jmxPort`, which is never read.
pub record Config : Type 0 where
  pub hostname : Bytes
  pub port : ℤ
  pub http_port : ℤ
  pub timeout_seconds : ℤ
  pub check_type : Bytes

abbrev pub default_config : Config
default_config = record {
  hostname = [];
  port = pos 9092;
  http_port = pos 8080;
  timeout_seconds = pos 10;
  check_type = codes "connectivity";
}

-- The body of the loop in `parseArguments`.
unfoldable pub parse_argument : Config → Bytes → Action Config
parse_argument c a =
    if help_option a
    then show_help
    else if is_option (codes "-H") (codes "--hostname") a
    then with_text (λ v. record c { hostname = v })
    else if is_option (codes "-p") (codes "--port") a
    then with_number (λ n. record c { port = n })
    else if is_option (codes "-P") (codes "--http-port") a
    then with_number (λ n. record c { http_port = n })
    else if is_option (codes "-c") (codes "--check") a
    then with_text (λ v. record c { check_type = v })
    else if is_option (codes "-T") (codes "--timeout") a
    then with_number (λ n. record c { timeout_seconds = n })
    else update c

unfoldable pub parse_arguments : List Bytes → Result (Parsed Config)
parse_arguments = parse_loop parse_argument default_config

-- The check of the broker's port.
unfoldable pub connectivity : Config → Io PluginResult
connectivity c = call (getaddrinfo c.hostname c.port) >>= λ resolved.
    if not resolved
    then finish (plain_result critical (codes "Kafka CRITICAL - Cannot resolve hostname"))
    else call socket >>= λ opened.
        if not opened
        then act freeaddrinfo
          >> finish (plain_result critical (codes "Kafka CRITICAL - Cannot create socket"))
        else set_timeouts c.timeout_seconds >> call connect >>= λ connected.
            if not connected
            then act freeaddrinfo
              >> act close
              >> finish (
                  plain_result critical (
                    concat (
                      codes "Kafka CRITICAL - Cannot connect to "
                      ∷ c.hostname
                      ∷ codes ":"
                      ∷ to_string c.port
                      ∷ [])))
            else act freeaddrinfo
              >> act close
              >> finish (
                  plain_result ok (
                    concat (
                      codes "Kafka OK - Broker port "
                      ∷ to_string c.port
                      ∷ codes " is accepting connections"
                      ∷ [])))

unfoldable pub path_of : Bytes → Bytes
path_of check_type =
    if text_eq check_type (codes "brokers") then codes "/brokers" else codes "/topics"

unfoldable pub judge : Bytes → Bytes → ℤ → PluginResult
judge check_type response status =
    if eqb_ℤ status (pos 200)
    then (if text_eq check_type (codes "topics")
        then counted (codes "Kafka OK - ") (codes " topics") (codes "topics=")
            (count_places (codes "\"name\"") response)
        else plain_result ok (codes "Kafka OK - HTTP API responding"))
    else with_status critical (codes "Kafka CRITICAL - HTTP API not available (status: ") status
        (codes "). Try connectivity check instead.")

unfoldable pub check : Fetch → Config → Io (Result PluginResult)
check fetch c =
    if is_empty c.hostname
    then finish (returns no_host)
    else if text_eq c.check_type (codes "connectivity")
    then (connectivity c >>= λ r. finish (returns r))
    else finish (
        guarded (codes "Kafka check failed: ") (
          Result.◌>>=◌
            (http_get fetch c.hostname c.http_port (path_of c.check_type) false c.timeout_seconds)
            (λ (response, status). returns (judge c.check_type response status))))

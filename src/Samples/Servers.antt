-- ===== src/Samples/Servers.antt =====
-- check_redis, check_ssl_validity and check_http at concrete inputs.
use netmon_plugins.Cpp.Convert.{fits, int_max}
use netmon_plugins.Cpp.Decimal.{to_string}
use netmon_plugins.Cpp.Result.{returns}
use netmon_plugins.Http
use netmon_plugins.Http.Verdict.{IsAnswered, Expected, http_check-ok_iff}
use netmon_plugins.Memcached.{extract_stat_value}
use netmon_plugins.Memcached.Table.{rows, row, extract_stat_value-rows}
use netmon_plugins.Plugin.{ok, PluginResult}
use netmon_plugins.Prelude.{
  ◌≡◌, ◌≢◌, ◌↔◌, refl, arith, true, false, List, [], ◌∷◌, Option, some, pos, ℤ, ◌-ℤ◌, minus_one,
  if◌then◌else◌,
}
use netmon_plugins.Prelude.Text.{Bytes, codes, contains, split_at_first, strip_prefix}
use netmon_plugins.Redis.Check
use netmon_plugins.Redis.Check.Trace.{IsClosed, check-IsClosed}
use netmon_plugins.Redis.Check.Verdict.{LogsIn, Answers, redis_check-ok}
use netmon_plugins.Redis.Protocol.{send_command, receive, extract_info_value}
use netmon_plugins.Redis.Sockets
use netmon_plugins.Redis.Sockets.{connect_to_redis, effects, nothing_held, connect_to_redis-effects}
use netmon_plugins.SslValidity
use netmon_plugins.SslValidity.Certificate
use netmon_plugins.SslValidity.Certificate.{check_ssl_certificate, check_ssl_certificate-effects}
use netmon_plugins.SslValidity.Verdict.{Presents, Verdicts, Within, ssl_check-Verdicts}

-- A server that answers every command alike: a text that passes for all replies.
abbrev server : Bytes → Option (List Bytes)
server command = some (codes "+OK +PONG\r\n" ∷ [])

abbrev redis_config : Check.Config
redis_config = record {
  hostname = codes "db";
  port = pos 6379;
  timeout_seconds = pos 10;
  password = [];
}

abbrev ratio : ℤ → ℤ → Bytes
ratio a b = codes "0.00"

check-IsClosed_example : IsClosed (Check.check ratio (λ host port. some server) redis_config).0
check-IsClosed_example = check-IsClosed ratio (λ host port. some server) redis_config

abbrev redis_result : PluginResult
redis_result = Check.metrics (codes "+OK +PONG\r\n") (codes "0.00")

redis_run : (Check.check ratio (λ host port. some server) redis_config).1 ≡ returns redis_result
unfolding Check.check Check.ping_and_info Check.judge Check.info_of Check.hit_ratio Check.metrics
    send_command receive contains split_at_first strip_prefix extract_info_value
redis_run = refl

redis_check-ok_example :
    (s : Bytes → Option (List Bytes)) × (some server ≡ some s) × LogsIn s redis_config × Answers s
unfolding Check.metrics
redis_check-ok_example =
    redis_check-ok ratio (λ host port. some server) redis_config redis_result redis_run refl

-- Nothing listens.
abbrev refused : Sockets.Answers
refused = record { resolves = true; opens = true; connects = false }

-- A certificate that ends at 10 days.
abbrev shown : Certificate.Answers
shown = record {
  has_context = true;
  resolves = true;
  opens = true;
  connects = true;
  has_session = true;
  shakes_hands = true;
  has_certificate = true;
  not_after = some (pos 864000);
  unreadable_end = false;
  has_name = λ n. true;
}

abbrev ssl_config : SslValidity.Config
ssl_config = record {
  hostname = codes "www";
  port = pos 443;
  timeout_seconds = pos 10;
  warning_days = pos 30;
  critical_days = pos 7;
}

check_ssl_certificate-effects_example :
    Certificate.effects shown (check_ssl_certificate true shown (pos 0)).0 Certificate.nothing_held
    ≡ some Certificate.nothing_held
check_ssl_certificate-effects_example = check_ssl_certificate-effects true shown (pos 0)

abbrev all_well : Presents shown (pos 864000)
all_well = (refl, refl, refl, refl, refl, refl, refl, refl)

ssl_check-Verdicts_example :
    Verdicts
      (SslValidity.check true (λ host port timeout. shown) (pos 0) ssl_config).1.code
      (Within (pos 7) 864000)
      (Within (pos 30) 864000)
unfolding ◌-ℤ◌
ssl_check-Verdicts_example =
    ssl_check-Verdicts (λ host port timeout. shown) (pos 0) (pos 864000) ssl_config
      (λ p. ground arith) all_well 864000 refl (omega arith)

abbrev exchange : Http.Exchange
exchange tls host port timeout request =
    some (codes "HTTP/1.1 500 Internal Server Error\r\nAge: 200\r\n")

abbrev http_config : Http.Config
http_config = record {
  hostname = codes "www";
  port = pos 443;
  uri = codes "/";
  use_ssl = true;
  timeout_seconds = pos 10;
  expect_string = [];
}

http_check-ok_iff_example : ((Http.check false exchange http_config).1.code ≡ ok) ↔ (
    (http_config.hostname ≢ [])
    × ((response : Bytes) × IsAnswered false exchange (Http.effective false http_config) response
        × Expected (Http.effective false http_config).expect_string response))
http_check-ok_iff_example = http_check-ok_iff false exchange http_config

-- `STAT uptime 77` in front of `STAT bytes 3000000000`, which no `int` holds.
extract_stat_value-rows_example :
    extract_stat_value
      (rows
        ((codes "uptime", codes "77") ∷ [])
        (row (codes "bytes") (to_string (pos 3000000000)) (codes "END")))
      (codes "STAT bytes")
    ≡ returns (if fits int_max (pos 3000000000) then pos 3000000000 else minus_one)
extract_stat_value-rows_example =
    extract_stat_value-rows ((codes "uptime", codes "77") ∷ []) (codes "bytes") (codes "END")
      (pos 3000000000) (ground arith)
      ((ground arith, ground arith, ground arith, λ p. ground arith), tt)

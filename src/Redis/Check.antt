-- ===== src/Redis/Check.antt =====
-- `check` and `parseArguments` of plugins/redis/check_redis.cpp. A run is a result with the trace of what is
-- done on the connection. How a ratio is printed, a `double` with two decimals, is the argument `ratio`.
pub mod Trace
pub mod Verdict
use netmon_plugins.Cpp.Convert.{stoi, stol, long_max, fits}
use netmon_plugins.Cpp.Decimal.{to_string}
use netmon_plugins.Cpp.Result.{
  Result, returns, throws, undefined, Exception, std_exception, other_exception, ◌>>=◌, catch_std,
  catch_all,
}
use netmon_plugins.Plugin.{ok, critical, unknown, PluginResult, plain_result}
use netmon_plugins.Plugin.Args.{
  Action, show_help, update, with_value, Parsed, is_option, help_option, parse_loop,
}
use netmon_plugins.Prelude.{
  ℕ, ◌+◌, Bool, true, false, ◌&&◌, ◌||◌, ◌==◌, not, if◌then◌else◌, List, [], ◌∷◌, ◌++◌, Option,
  none, some, is_empty, ℤ, pos, negsuc, ltb_ℤ, ◌+ℤ◌, take, drop,
}
use netmon_plugins.Prelude.Text.{Bytes, codes, concat, contains, split_at_first}
use netmon_plugins.Redis.Protocol.{send_command, extract_info_value}
use netmon_plugins.HttpApi.Response.{crlf}

-- The fields of `RedisPlugin` that `check` reads.
pub record Config : Type 0 where
  pub hostname : Bytes
  pub port : ℤ
  pub timeout_seconds : ℤ
  pub password : Bytes

abbrev pub default_config : Config
default_config = record { hostname = []; port = pos 6379; timeout_seconds = pos 10; password = [] }

-- The body of the loop in `parseArguments`.
unfoldable pub parse_argument : Config → Bytes → Action Config
parse_argument c a =
    if help_option a
    then show_help
    else if is_option (codes "-H") (codes "--hostname") a
    then with_value (λ v. returns (record c { hostname = v }))
    else if is_option (codes "-p") (codes "--port") a
    then with_value (λ v. stoi v >>= λ n. returns (record c { port = n }))
    else if is_option (codes "-a") (codes "--password") a
    then with_value (λ v. returns (record c { password = v }))
    else if is_option (codes "-t") (codes "--timeout") a
    then with_value (λ v. stoi v >>= λ n. returns (record c { timeout_seconds = n }))
    else update c

unfoldable pub parse_arguments : List Bytes → Result (Parsed Config)
parse_arguments = parse_loop parse_argument default_config

-- `hits + misses`, as a `long`.
abbrev pub add_long : ℤ → ℤ → Result ℤ
add_long a b = if fits long_max (a +ℤ b) then returns (a +ℤ b) else undefined

-- The text of `hitRatio`: the ratio of two numbers that are there and can be read, or that of 0.0.
unfoldable pub hit_ratio : (ℤ → ℤ → Bytes) → Bytes → Bytes → Result Bytes
hit_ratio ratio hits misses =
    if is_empty hits || is_empty misses
    then returns (ratio (pos 0) (pos 1))
    else catch_all
        (do
          (h, _) ← stol hits
          (m, _) ← stol misses
          sum ← add_long h m
          returns (if ltb_ℤ (pos 0) sum then ratio h sum else ratio (pos 0) (pos 1)))
        (ratio (pos 0) (pos 1))

-- `infoResponse.substr(dataStart, len)`: a negative length is a very large one.
abbrev pub take_int : ℤ → Bytes → Bytes
take_int (pos n) s = take n s
take_int (negsuc n) s = s

-- The text of the bulk string, or the reply itself if it is none. The first byte of an empty string is 0.
unfoldable pub info_of : Bytes → Result Bytes
info_of [] = returns []
info_of (c ∷ reply) =
    if c == b'$'
    then elim (split_at_first crlf (c ∷ reply)) [
      | none ↦ returns []
      | some (digits, rest) ↦ stoi (drop 1 digits) >>= λ len. returns (take_int len rest)
    ]
    else returns (c ∷ reply)

unfoldable pub metrics : Bytes → Bytes → PluginResult
metrics info ratio =
    let value = λ (key : Bytes). extract_info_value info key in
    record {
      code = ok;
      message = concat (
          codes "Redis OK - Version "
          ∷ value (codes "redis_version")
          ∷ codes ", "
          ∷ value (codes "connected_clients")
          ∷ codes " clients, "
          ∷ value (codes "used_memory_human")
          ∷ codes " used"
          ∷ []);
      perfdata = concat (
          codes "clients="
          ∷ value (codes "connected_clients")
          ∷ codes " memory="
          ∷ value (codes "used_memory")
          ∷ codes " commands="
          ∷ value (codes "total_commands_processed")
          ∷ codes " hit_ratio="
          ∷ ratio
          ∷ codes "% hits="
          ∷ value (codes "keyspace_hits")
          ∷ codes " misses="
          ∷ value (codes "keyspace_misses")
          ∷ codes " uptime="
          ∷ value (codes "uptime_in_seconds")
          ∷ []);
    }

abbrev pub judged : (ℤ → ℤ → Bytes) → Bytes → Result PluginResult
judged ratio info =
    if is_empty info
    then returns (plain_result critical (codes "Redis CRITICAL - Invalid INFO response"))
    else (hit_ratio ratio (extract_info_value info (codes "keyspace_hits"))
          (extract_info_value info (codes "keyspace_misses"))
        >>= λ text. returns (metrics info text))

-- The part of `check` behind the last command.
unfoldable pub judge : (ℤ → ℤ → Bytes) → Bytes → Result PluginResult
judge ratio reply = info_of reply >>= λ info. judged ratio info

-- What is done on the connection.
pub data Event : Type 0 where
  opened : Event
  sent : Bytes → Event
  closed : Event

abbrev pub guarded : Result PluginResult → Result PluginResult
guarded m = catch_std m (λ what. plain_result unknown (codes "Redis check failed: " ++ what))

-- `reply.find("OK") != npos || reply.find("+OK") != npos`
abbrev pub reply_has : Bytes → Bytes → Bool
reply_has word reply = contains word reply || contains (b'+' ∷ word) reply

-- The commands behind the authentication. `server` answers the bytes of a command.
unfoldable pub ping_and_info :
    (ℤ → ℤ → Bytes) → (Bytes → Option (List Bytes)) → List Event × Result PluginResult
ping_and_info ratio server =
    if reply_has (codes "PONG") (send_command server (codes "PING"))
    then (
      sent (codes "PING") ∷ sent (codes "INFO") ∷ closed ∷ [],
      guarded (judge ratio (send_command server (codes "INFO"))),
    )
    else (
      sent (codes "PING") ∷ closed ∷ [],
      returns (plain_result critical (codes "Redis CRITICAL - PING failed")),
    )

-- `connection` is what `connectToRedis` makes of a host and a port: a server, or nothing.
unfoldable pub check :
    (ℤ → ℤ → Bytes)
    → (Bytes → ℤ → Option (Bytes → Option (List Bytes)))
    → Config
    → List Event × Result PluginResult
check ratio connection c =
    if is_empty c.hostname
    then ([], returns (plain_result unknown (codes "Hostname must be specified")))
    else elim (connection c.hostname c.port) [
      | none ↦ (
        [],
        returns (
            plain_result critical (
              concat (
                codes "Redis CRITICAL - Cannot connect to "
                ∷ c.hostname
                ∷ codes ":"
                ∷ to_string c.port
                ∷ []))),
      )
      | some server ↦
          let auth = codes "AUTH " ++ c.password in
          let rest = ping_and_info ratio server in
          if is_empty c.password
          then (opened ∷ rest.0, rest.1)
          else if reply_has (codes "OK") (send_command server auth)
          then (opened ∷ sent auth ∷ rest.0, rest.1)
          else (
            opened ∷ sent auth ∷ closed ∷ [],
            returns (plain_result critical (codes "Redis CRITICAL - Authentication failed")),
          )
    ]

-- ===== src/Memcached.antt =====
-- plugins/memcached/check_memcached.cpp (the POSIX branches): the statistics of a server. `connection` is what
-- `connectToMemcached` makes of a host and a port: a server that answers the bytes of a command with the pieces
-- that `recv` returns, or nothing if `send` fails; and `ratio` prints the ratio of two numbers as a percentage,
-- a `double` with two decimals.
pub mod Table
use netmon_plugins.Cpp.Convert.{stoi, fits, int_max}
use netmon_plugins.Cpp.Decimal.{to_string}
use netmon_plugins.Cpp.Result.{Result, returns, throws, undefined, ◌>>=◌, catch_std, catch_all}
use netmon_plugins.HttpApi.Response.{crlf, until_zero}
use netmon_plugins.Plugin.{ok, critical, unknown, PluginResult, plain_result}
use netmon_plugins.Plugin.Args.{
  Action, show_help, update, with_value, Parsed, is_option, help_option, parse_loop,
}
use netmon_plugins.Prelude.{
  Bool, true, false, ◌&&◌, ◌||◌, not, if◌then◌else◌, List, [], ◌∷◌, ◌++◌, Option, none, some,
  is_empty, ℤ, pos, minus_one, leb_ℤ, ltb_ℤ, ◌+ℤ◌,
}
use netmon_plugins.Prelude.Text.{Bytes, codes, concat, contains, split_at_first}

-- The fields of `MemcachedPlugin`, but for `checkStats`, which is never read.
pub record Config : Type 0 where
  pub hostname : Bytes
  pub port : ℤ
  pub timeout_seconds : ℤ

abbrev pub default_config : Config
default_config = record { hostname = []; port = pos 11211; timeout_seconds = pos 10 }

-- The body of the loop in `parseArguments`.
unfoldable pub parse_argument : Config → Bytes → Action Config
parse_argument c a =
    if help_option a
    then show_help
    else if is_option (codes "-H") (codes "--hostname") a
    then with_value (λ v. returns (record c { hostname = v }))
    else if is_option (codes "-p") (codes "--port") a
    then with_value (λ v. stoi v >>= λ n. returns (record c { port = n }))
    else if is_option (codes "-t") (codes "--timeout") a
    then with_value (λ v. stoi v >>= λ n. returns (record c { timeout_seconds = n }))
    else update c

unfoldable pub parse_arguments : List Bytes → Result (Parsed Config)
parse_arguments = parse_loop parse_argument default_config

-- The loop over `recv`, at the pieces that are still to come.
unfoldable pub receive : Bytes → List Bytes → Bytes
receive response [] = response
receive response (piece ∷ pieces) =
    let longer = response ++ until_zero piece in
    let more = receive longer pieces in
    if contains (codes "END" ++ crlf) longer then longer else more

abbrev pub Server : Type 0
Server = Bytes → Option (List Bytes)

unfoldable pub send_command : Server → Bytes → Bytes
send_command server command = elim (server (command ++ crlf)) [
  | none ↦ []
  | some pieces ↦ receive [] pieces
]

-- `try { return std::stoi(value); } catch (...) { return -1; }`
abbrev pub number_of : Bytes → Result ℤ
number_of value = catch_all (stoi value) minus_one

unfoldable pub extract_stat_value : Bytes → Bytes → Result ℤ
extract_stat_value stats key = elim (split_at_first (key ++ codes " ") stats) [
  | none ↦ returns minus_one
  | some (earlier, behind) ↦ elim (split_at_first crlf behind) [
    | none ↦ returns minus_one
    | some (value, rest) ↦ number_of value
  ]
]

-- The seven values that `check` reads.
pub record Stats : Type 0 where
  pub curr_connections : ℤ
  pub total_connections : ℤ
  pub get_hits : ℤ
  pub get_misses : ℤ
  pub bytes : ℤ
  pub curr_items : ℤ
  pub evictions : ℤ

unfoldable pub read_stats : Bytes → Result Stats
read_stats response = do
  connections ← extract_stat_value response (codes "STAT curr_connections")
  total ← extract_stat_value response (codes "STAT total_connections")
  hits ← extract_stat_value response (codes "STAT get_hits")
  misses ← extract_stat_value response (codes "STAT get_misses")
  size ← extract_stat_value response (codes "STAT bytes")
  items ← extract_stat_value response (codes "STAT curr_items")
  evicted ← extract_stat_value response (codes "STAT evictions")
  returns (record {
    curr_connections = connections;
    total_connections = total;
    get_hits = hits;
    get_misses = misses;
    bytes = size;
    curr_items = items;
    evictions = evicted;
  })

-- `getHits + getMisses` is an `int`, and is only computed if neither is negative.
unfoldable pub hit_ratio : (ℤ → ℤ → Bytes) → ℤ → ℤ → Result Bytes
hit_ratio ratio hits misses =
    if leb_ℤ (pos 0) hits && leb_ℤ (pos 0) misses
    then (if fits int_max (hits +ℤ misses)
        then returns (
            if ltb_ℤ (pos 0) (hits +ℤ misses)
            then ratio hits (hits +ℤ misses)
            else ratio (pos 0) (pos 1))
        else undefined)
    else returns (ratio (pos 0) (pos 1))

unfoldable pub report : Stats → Bytes → PluginResult
report s text = record {
  code = ok;
  message = concat (
      codes "Memcached OK - "
      ∷ to_string s.curr_connections
      ∷ codes " connections, "
      ∷ to_string s.curr_items
      ∷ codes " items, "
      ∷ text
      ∷ codes "% hit ratio"
      ∷ []);
  perfdata = concat (
      codes "connections="
      ∷ to_string s.curr_connections
      ∷ codes " total_connections="
      ∷ to_string s.total_connections
      ∷ codes " items="
      ∷ to_string s.curr_items
      ∷ codes " bytes="
      ∷ to_string s.bytes
      ∷ codes " hit_ratio="
      ∷ text
      ∷ codes "% hits="
      ∷ to_string s.get_hits
      ∷ codes " misses="
      ∷ to_string s.get_misses
      ∷ codes " evictions="
      ∷ to_string s.evictions
      ∷ []);
}

-- The part of `check` behind the command.
unfoldable pub judge : (ℤ → ℤ → Bytes) → Bytes → Result PluginResult
judge ratio response =
    if is_empty response || not (contains (codes "STAT") response)
    then returns (plain_result critical (codes "Memcached CRITICAL - Invalid response from server"))
    else (read_stats response >>= λ s.
        (hit_ratio ratio s.get_hits s.get_misses >>= λ text. returns (report s text)))

unfoldable pub check :
    (ℤ → ℤ → Bytes) → (Bytes → ℤ → ℤ → Option Server) → Config → Result PluginResult
check ratio connection c =
    if is_empty c.hostname
    then returns (plain_result unknown (codes "Hostname must be specified"))
    else elim (connection c.hostname c.port c.timeout_seconds) [
      | none ↦ returns (
          plain_result critical (
            concat (
              codes "Memcached CRITICAL - Cannot connect to "
              ∷ c.hostname
              ∷ codes ":"
              ∷ to_string c.port
              ∷ [])))
      | some server ↦
          catch_std (judge ratio (send_command server (codes "stats")))
            (λ what. plain_result unknown (codes "Memcached check failed: " ++ what))
    ]

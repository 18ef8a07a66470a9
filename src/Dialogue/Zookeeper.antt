-- ===== src/Dialogue/Zookeeper.antt =====
-- plugins/zookeeper/check_zookeeper.cpp: a command of four letters, the reply up to its first line end, and the
-- verdict. The number bounds the calls of `recv`; the result is nothing where it is used up.
use netmon_plugins.Cpp.Result.{Result}
use netmon_plugins.Dialogue.Common.{no_host}
use netmon_plugins.HttpApi.Response.{until_zero}
use netmon_plugins.Net.{Io, finish, call, recv, close, send, ◌>>=◌, ◌>>◌}
use netmon_plugins.Net.Tcp.{act, connect_tcp}
use netmon_plugins.Plugin.{ok, warning, critical, PluginResult, plain_result}
use netmon_plugins.Cpp.Decimal.{to_string}
use netmon_plugins.Plugin.Args.{
  Action, show_help, update, with_text, with_number, Parsed, is_option, help_option, parse_loop,
}
use netmon_plugins.Prelude.Text.{Bytes, codes, contains, text_eq, concat}
use netmon_plugins.Prelude.{
  ℕ, ◌||◌, not, if◌then◌else◌, List, [], ◌∷◌, ◌++◌, is_empty, ℤ, pos, Option, none, some, zero, suc,
}

-- The fields of `ZookeeperPlugin`.
pub record Config : Type 0 where
  pub hostname : Bytes
  pub port : ℤ
  pub timeout_seconds : ℤ
  pub check_type : Bytes

abbrev pub default_config : Config
default_config = record {
  hostname = [];
  port = pos 2181;
  timeout_seconds = pos 10;
  check_type = codes "ruok";
}

-- The body of the loop in `parseArguments`.
unfoldable pub parse_argument : Config → Bytes → Action Config
parse_argument c a =
    if help_option a
    then show_help
    else if is_option (codes "-H") (codes "--hostname") a
    then with_text (λ v. record c { hostname = v })
    else if is_option (codes "-p") (codes "--port") a
    then with_number (λ n. record c { port = n })
    else if is_option (codes "-c") (codes "--check") a
    then with_text (λ v. record c { check_type = v })
    else if is_option (codes "-T") (codes "--timeout") a
    then with_number (λ n. record c { timeout_seconds = n })
    else update c

unfoldable pub parse_arguments : List Bytes → Result (Parsed Config)
parse_arguments = parse_loop parse_argument default_config

-- `bytes > 0`, and what `response += buffer` appends.
abbrev pub piece_of : Option Bytes → Option Bytes
piece_of none = none
piece_of (some []) = none
piece_of (some (c ∷ s)) = some (until_zero (c ∷ s))

-- The end of the loop's body: stop at a line end, or at the end of the stream.
abbrev pub go_on : (Bytes → Io (Option Bytes)) → Bytes → Option Bytes → Io (Option Bytes)
go_on rest response none = finish (some response)
go_on rest response (some piece) =
    let longer = response ++ piece in
    if contains (10 ∷ []) longer then finish (some longer) else rest longer

-- The loop over `recv`.
unfoldable pub receive_line : ℕ → Bytes → Io (Option Bytes)
receive_line zero response = finish none
receive_line (suc n) response = recv >>= λ r. go_on (receive_line n) response (piece_of r)

unfoldable pub send_zookeeper_command : ℕ → Bytes → Io (Option Bytes)
send_zookeeper_command n command = call (send (command ++ 10 ∷ [])) >>= λ sent.
    if not sent then finish (some []) else receive_line n []

unfoldable pub command_of : Bytes → Bytes
command_of check_type =
    if text_eq check_type (codes "ruok")
    then codes "ruok"
    else if text_eq check_type (codes "stat")
    then codes "stat"
    else if text_eq check_type (codes "mntr")
    then codes "mntr"
    else codes "ruok"

unfoldable pub report : Bytes → Bytes → PluginResult
report check_type response =
    if is_empty response
    then plain_result critical (codes "Zookeeper CRITICAL - No response from server")
    else if text_eq check_type (codes "ruok")
    then (if contains (codes "imok") response
        then plain_result ok (codes "Zookeeper OK - Server is responding (imok)")
        else plain_result critical (codes "Zookeeper CRITICAL - Server response: " ++ response))
    else if text_eq check_type (codes "stat") || text_eq check_type (codes "mntr")
    then (if contains (codes "Zookeeper version") response || contains (codes "zk_version") response
        then plain_result ok (codes "Zookeeper OK - Server is responding")
        else plain_result warning (codes "Zookeeper WARNING - Unexpected response format"))
    else plain_result ok (codes "Zookeeper OK - Server is responding")

abbrev pub reported : Bytes → Option Bytes → Option PluginResult
reported check_type none = none
reported check_type (some response) = some (report check_type response)

-- No step throws an exception, so the handler of `check` is not reached.
unfoldable pub check : ℕ → Config → Io (Option PluginResult)
check n c =
    if is_empty c.hostname
    then finish (some no_host)
    else connect_tcp c.hostname c.port c.timeout_seconds >>= λ connected.
        if not connected
        then finish (
            some (
              plain_result critical (
                concat (
                  codes "Zookeeper CRITICAL - Cannot connect to "
                  ∷ c.hostname
                  ∷ codes ":"
                  ∷ to_string c.port
                  ∷ []))))
        else send_zookeeper_command n (command_of c.check_type) >>= λ response.
            act close >> finish (reported c.check_type response)

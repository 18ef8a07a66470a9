-- ===== src/Dialogue/Ircd.antt =====
-- plugins/ircd/check_ircd.cpp: the registration at an IRC server, and the verdict.
pub mod Session
use netmon_plugins.Cpp.Result.{Result}
use netmon_plugins.Dialogue.Common.{accepts_connections, no_host}
use netmon_plugins.Dialogue.Talk.{connected_to, demand, say, quit_with, reporting}
use netmon_plugins.Net.{Io, ◌>>=◌}
use netmon_plugins.Net.Tcp.{read_response}
use netmon_plugins.Plugin.{PluginResult}
use netmon_plugins.Plugin.Args.{
  Action, show_help, update, with_text, with_number, Parsed, is_option, help_option, parse_loop,
}
use netmon_plugins.Prelude.Text.{Bytes, codes, contains}
use netmon_plugins.Prelude.{Bool, ◌||◌, if◌then◌else◌, List, [], ◌++◌, is_empty, ℤ, pos}

-- The fields of `IrcdPlugin`.
pub record Config : Type 0 where
  pub hostname : Bytes
  pub port : ℤ
  pub timeout_seconds : ℤ
  pub nickname : Bytes

abbrev pub default_config : Config
default_config = record {
  hostname = [];
  port = pos 6667;
  timeout_seconds = pos 10;
  nickname = codes "monitor";
}

-- The body of the loop in `parseArguments`.
unfoldable pub parse_argument : Config → Bytes → Action Config
parse_argument c a =
    if help_option a
    then show_help
    else if is_option (codes "-H") (codes "--hostname") a
    then with_text (λ v. record c { hostname = v })
    else if is_option (codes "-p") (codes "--port") a
    then with_number (λ n. record c { port = n })
    else if is_option (codes "-t") (codes "--timeout") a
    then with_number (λ n. record c { timeout_seconds = n })
    else if is_option (codes "-n") (codes "--nickname") a
    then with_text (λ v. record c { nickname = v })
    else update c

unfoldable pub parse_arguments : List Bytes → Result (Parsed Config)
parse_arguments = parse_loop parse_argument default_config

-- The welcome, or a nickname that is in use.
abbrev pub is_registered : Bytes → Bool
is_registered response = contains (codes "001") response || contains (codes "433") response

-- What is said and read behind the connection.
unfoldable pub converse : ℤ → Bytes → Io Bool
converse timeout nick = demand is_empty timeout (λ greeting. say (codes "NICK " ++ nick) (
    say (codes "USER " ++ (nick ++ codes " 0 * :Monitoring Bot"))
      (read_response timeout >>= λ response. quit_with timeout (is_registered response))))

unfoldable pub check_ircd : Bytes → ℤ → ℤ → Bytes → Io Bool
check_ircd host port timeout nick = connected_to host port timeout (converse timeout nick)

unfoldable pub report : Config → Bool → PluginResult
report c available = accepts_connections (codes "IRC") c.hostname c.port available

-- No step throws an exception, so the handler of `check` is not reached.
unfoldable pub check : Config → Io PluginResult
check c =
    reporting c.hostname no_host (check_ircd c.hostname c.port c.timeout_seconds c.nickname)
      (report c)

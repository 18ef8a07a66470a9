-- ===== src/Dialogue/Nntp.antt =====
-- plugins/nntp/check_nntp.cpp: the conversation with a news server, and the verdict.
pub mod Session
use netmon_plugins.Cpp.Result.{Result}
use netmon_plugins.Dialogue.Common.{accepts_connections, no_host, refuses}
use netmon_plugins.Dialogue.Talk.{connected_to, demand, say, quit_with, reporting}
use netmon_plugins.Net.{Io}
use netmon_plugins.Plugin.{PluginResult}
use netmon_plugins.Plugin.Args.{
  Action, show_help, update, with_text, with_number, Parsed, is_option, help_option, parse_loop,
}
use netmon_plugins.Prelude.Text.{Bytes, codes}
use netmon_plugins.Prelude.{
  Bool, true, ◌&&◌, ◌||◌, ◌==◌, not, if◌then◌else◌, List, [], ◌++◌, is_empty, ℤ, pos,
}

-- The fields of `NntpPlugin`.
pub record Config : Type 0 where
  pub hostname : Bytes
  pub port : ℤ
  pub timeout_seconds : ℤ
  pub username : Bytes
  pub password : Bytes

abbrev pub default_config : Config
default_config = record {
  hostname = [];
  port = pos 119;
  timeout_seconds = pos 10;
  username = [];
  password = [];
}

-- The body of the loop in `parseArguments`.
unfoldable pub parse_argument : Config → Bytes → Action Config
parse_argument c a =
    if help_option a
    then show_help
    else if is_option (codes "-H") (codes "--hostname") a
    then with_text (λ v. record c { hostname = v })
    else if is_option (codes "-p") (codes "--port") a
    then with_number (λ n. record c { port = n })
    else if is_option (codes "-t") (codes "--timeout") a
    then with_number (λ n. record c { timeout_seconds = n })
    else if is_option (codes "-u") (codes "--username") a
    then with_text (λ v. record c { username = v })
    else if is_option (codes "-P") (codes "--password") a
    then with_text (λ v. record c { password = v })
    else update c

unfoldable pub parse_arguments : List Bytes → Result (Parsed Config)
parse_arguments = parse_loop parse_argument default_config

-- What is said and read behind the connection.
unfoldable pub converse : ℤ → Bytes → Bytes → Io Bool
converse timeout user pass = demand (refuses (λ c. c == b'2' || c == b'4')) timeout (λ greeting.
    if not (is_empty user) && not (is_empty pass)
    then say (codes "AUTHINFO USER " ++ user) (
        demand (refuses (λ c. c == b'3')) timeout (λ r.
          say (codes "AUTHINFO PASS " ++ pass)
            (demand (refuses (λ c. c == b'2')) timeout (λ r'. quit_with timeout true))))
    else quit_with timeout true)

unfoldable pub check_nntp : Bytes → ℤ → ℤ → Bytes → Bytes → Io Bool
check_nntp host port timeout user pass = connected_to host port timeout (converse timeout user pass)

unfoldable pub report : Config → Bool → PluginResult
report c available = accepts_connections (codes "NNTP") c.hostname c.port available

-- No step throws an exception, so the handler of `check` is not reached.
unfoldable pub check : Config → Io PluginResult
check c =
    reporting c.hostname no_host
      (check_nntp c.hostname c.port c.timeout_seconds c.username c.password) (report c)

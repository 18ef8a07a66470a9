-- ===== src/Dialogue/Telnet.antt =====
-- plugins/telnet/check_telnet.cpp: a line that may be sent, a text that may be expected, and the verdict.
pub mod Session
use netmon_plugins.Cpp.Result.{Result}
use netmon_plugins.Dialogue.Common.{accepts_connections, no_host}
use netmon_plugins.Dialogue.Talk.{connected_to, part_with, reporting}
use netmon_plugins.Net.{Io, ◌>>=◌}
use netmon_plugins.Net.Tcp.{close_with, read_response}
use netmon_plugins.Plugin.{PluginResult}
use netmon_plugins.Plugin.Args.{
  Action, show_help, update, with_text, with_number, Parsed, is_option, help_option, parse_loop,
}
use netmon_plugins.Prelude.Text.{Bytes, codes, contains}
use netmon_plugins.Prelude.{Bool, true, not, if◌then◌else◌, List, [], is_empty, ℤ, pos}

-- The fields of `TelnetPlugin`.
pub record Config : Type 0 where
  pub hostname : Bytes
  pub port : ℤ
  pub timeout_seconds : ℤ
  pub expect_string : Bytes
  pub send_string : Bytes

abbrev pub default_config : Config
default_config = record {
  hostname = [];
  port = pos 23;
  timeout_seconds = pos 10;
  expect_string = [];
  send_string = [];
}

-- The body of the loop in `parseArguments`.
unfoldable pub parse_argument : Config → Bytes → Action Config
parse_argument c a =
    if help_option a
    then show_help
    else if is_option (codes "-H") (codes "--hostname") a
    then with_text (λ v. record c { hostname = v })
    else if is_option (codes "-p") (codes "--port") a
    then with_number (λ n. record c { port = n })
    else if is_option (codes "-t") (codes "--timeout") a
    then with_number (λ n. record c { timeout_seconds = n })
    else if is_option (codes "-s") (codes "--send") a
    then with_text (λ v. record c { send_string = v })
    else if is_option (codes "-e") (codes "--expect") a
    then with_text (λ v. record c { expect_string = v })
    else update c

unfoldable pub parse_arguments : List Bytes → Result (Parsed Config)
parse_arguments = parse_loop parse_argument default_config

-- Without an expectation, every reply will do, and none as well.
abbrev pub is_expected : Bytes → Bytes → Bool
is_expected expect response = if not (is_empty expect) then contains expect response else true

-- What is said and read behind the connection. The text that is sent has a line end, so it is not empty, and the
-- outcome of `sendData` is dropped.
unfoldable pub converse : ℤ → Bytes → Bytes → Io Bool
converse timeout line expect = read_response timeout >>= λ response.
    if not (is_empty line)
    then part_with timeout line (is_expected expect)
    else close_with (is_expected expect response)

unfoldable pub check_telnet : Bytes → ℤ → ℤ → Bytes → Bytes → Io Bool
check_telnet host port timeout line expect =
    connected_to host port timeout (converse timeout line expect)

unfoldable pub report : Config → Bool → PluginResult
report c available = accepts_connections (codes "TELNET") c.hostname c.port available

-- No step throws an exception, so the handler of `check` is not reached.
unfoldable pub check : Config → Io PluginResult
check c =
    reporting c.hostname no_host
      (check_telnet c.hostname c.port c.timeout_seconds c.send_string c.expect_string) (report c)

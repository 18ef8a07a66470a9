-- ===== src/Dialogue/UdpPort.antt =====
-- plugins/udp/check_udp.cpp: a datagram that may be sent, and an answer to it.
use netmon_plugins.Cpp.Result.{Result}
use netmon_plugins.Dialogue.Common.{service_report}
use netmon_plugins.Net.{
  Io, finish, call, recv, getaddrinfo, socket, freeaddrinfo, sendto, ◌>>=◌, ◌>>◌,
}
use netmon_plugins.Net.Tcp.{close_with, act, set_timeouts}
use netmon_plugins.Plugin.{unknown, PluginResult, plain_result}
use netmon_plugins.Dialogue.Banner.{text_has}
use netmon_plugins.Plugin.Args.{
  Action, show_help, update, with_text, with_number, Parsed, is_option, help_option, parse_loop,
}
use netmon_plugins.Prelude.Text.{Bytes, codes}
use netmon_plugins.Prelude.{
  Bool, true, false, ◌||◌, not, if◌then◌else◌, List, [], is_empty, ℤ, pos, ltb_ℤ, minus_one, Option,
  none, some,
}

-- The fields of `UdpPlugin`.
pub record Config : Type 0 where
  pub hostname : Bytes
  pub port : ℤ
  pub timeout_seconds : ℤ
  pub send_string : Bytes
  pub expect_string : Bytes

abbrev pub default_config : Config
default_config = record {
  hostname = [];
  port = minus_one;
  timeout_seconds = pos 10;
  send_string = [];
  expect_string = [];
}

-- The body of the loop in `parseArguments`.
unfoldable pub parse_argument : Config → Bytes → Action Config
parse_argument c a =
    if help_option a
    then show_help
    else if is_option (codes "-H") (codes "--hostname") a
    then with_text (λ v. record c { hostname = v })
    else if is_option (codes "-p") (codes "--port") a
    then with_number (λ n. record c { port = n })
    else if is_option (codes "-t") (codes "--timeout") a
    then with_number (λ n. record c { timeout_seconds = n })
    else if is_option (codes "-s") (codes "--send") a
    then with_text (λ v. record c { send_string = v })
    else if is_option (codes "-e") (codes "--expect") a
    then with_text (λ v. record c { expect_string = v })
    else update c

unfoldable pub parse_arguments : List Bytes → Result (Parsed Config)
parse_arguments = parse_loop parse_argument default_config

-- `received >= 0`
abbrev pub has_answer : Option Bytes → Bool
has_answer none = false
has_answer (some bytes) = true

abbrev pub finish_with : Bool → Io Bool
finish_with b = act freeaddrinfo >> close_with b

unfoldable pub check_udp : Bytes → ℤ → ℤ → Bytes → Bytes → Io Bool
check_udp host port timeout datagram expect = call (getaddrinfo host port) >>= λ resolved.
    if not resolved
    then finish false
    else call socket >>= λ opened.
        if not opened
        then act freeaddrinfo >> finish false
        else set_timeouts timeout
          >> (if not (is_empty datagram) then act (sendto datagram) else finish tt)
          >> recv
          >>= λ r. finish_with (if not (is_empty expect) then text_has expect r else has_answer r)

unfoldable pub report : Config → Bool → PluginResult
report c available =
    service_report (codes "UDP") (codes " is responding") (codes " is not responding") c.hostname
      c.port available

-- No step throws an exception, so the handler of `check` is not reached.
unfoldable pub check : Config → Io PluginResult
check c =
    if is_empty c.hostname || ltb_ℤ c.port (pos 0)
    then finish (plain_result unknown (codes "Hostname and port must be specified"))
    else (check_udp c.hostname c.port c.timeout_seconds c.send_string c.expect_string
        >>= λ available. finish (report c available))

-- ===== src/Dialogue/TcpPort.antt =====
-- plugins/tcp/check_tcp.cpp: a connection that is made without blocking. The outcome of `getsockopt` is whether the
-- pending error that it reads is 0.
pub mod Link
use netmon_plugins.Cpp.Result.{Result}
use netmon_plugins.Dialogue.Common.{accepts_connections}
use netmon_plugins.Net.{
  Io, finish, call, getaddrinfo, socket, connect, freeaddrinfo, fcntl, getsockopt, select, ◌>>=◌,
  ◌>>◌,
}
use netmon_plugins.Net.Tcp.{close_with, act}
use netmon_plugins.Plugin.{unknown, PluginResult, plain_result}
use netmon_plugins.Plugin.Args.{
  Action, show_help, update, with_text, with_number, Parsed, is_option, help_option, parse_loop,
}
use netmon_plugins.Prelude.Text.{Bytes, codes}
use netmon_plugins.Prelude.{
  true, Bool, false, ◌||◌, not, if◌then◌else◌, List, [], is_empty, ℤ, pos, ltb_ℤ, minus_one,
}

-- The fields of `TcpPlugin`, but for `sendString` and `expectString`, which are never read.
pub record Config : Type 0 where
  pub hostname : Bytes
  pub port : ℤ
  pub timeout_seconds : ℤ

abbrev pub default_config : Config
default_config = record { hostname = []; port = minus_one; timeout_seconds = pos 10 }

-- The body of the loop in `parseArguments`.
unfoldable pub parse_argument : Config → Bytes → Action Config
parse_argument c a =
    if help_option a
    then show_help
    else if is_option (codes "-H") (codes "--hostname") a
    then with_text (λ v. record c { hostname = v })
    else if is_option (codes "-p") (codes "--port") a
    then with_number (λ n. record c { port = n })
    else if is_option (codes "-t") (codes "--timeout") a
    then with_number (λ n. record c { timeout_seconds = n })
    else update c

unfoldable pub parse_arguments : List Bytes → Result (Parsed Config)
parse_arguments = parse_loop parse_argument default_config

-- `connect` has not succeeded at once: wait until the socket can be written to.
unfoldable pub await_port : ℤ → Io Bool
await_port timeout = call (select timeout) >>= λ ready.
    if ready then (call getsockopt >>= λ no_error. close_with no_error) else close_with false

-- The two calls of `fcntl` read the flags and set `O_NONBLOCK`.
unfoldable pub connect_port : Bytes → ℤ → ℤ → Io Bool
connect_port host port timeout = call (getaddrinfo host port) >>= λ resolved.
    if not resolved
    then finish false
    else call socket >>= λ opened.
        if not opened
        then act freeaddrinfo >> finish false
        else act fcntl >> act fcntl >> call connect >>= λ connected.
            act freeaddrinfo >> (if not connected then await_port timeout else close_with true)

unfoldable pub report : Config → Bool → PluginResult
report c available = accepts_connections (codes "TCP") c.hostname c.port available

-- No step throws an exception, so the handler of `check` is not reached.
unfoldable pub check : Config → Io PluginResult
check c =
    if is_empty c.hostname || ltb_ℤ c.port (pos 0)
    then finish (plain_result unknown (codes "Hostname and port must be specified"))
    else (connect_port c.hostname c.port c.timeout_seconds >>= λ connected.
        finish (report c connected))

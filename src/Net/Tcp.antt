-- ===== src/Net/Tcp.antt =====
-- What the plugins of services share, each in a copy of its own: the connection that is made first, a line that
-- is sent, and a reply that is waited for (the POSIX branches).
use netmon_plugins.HttpApi.Response.{crlf, until_zero}
use netmon_plugins.Net.{
  Call, getaddrinfo, socket, setsockopt, connect, freeaddrinfo, close, select, send, Io, finish,
  call, recv, ◌>>=◌, ◌>>◌,
}
use netmon_plugins.Prelude.Text.{Bytes}
use netmon_plugins.Prelude.{ℤ, Bool, true, false, not, [], ◌++◌, Option, none, some, if◌then◌else◌}

-- A call whose outcome the source drops.
abbrev pub act : Call → Io Unit
act c = call c >> finish tt

-- `close(sock)` and `return`
abbrev pub close_with : {A : Type 0} → A → Io A
close_with a = act close >> finish a

-- Both timeouts, `SO_RCVTIMEO` and `SO_SNDTIMEO`.
abbrev pub set_timeouts : ℤ → Io Unit
set_timeouts timeout = act (setsockopt timeout) >> act (setsockopt timeout)

-- Resolve the name, make a socket, set its timeouts and connect it. No socket is open where it is false.
unfoldable pub connect_tcp : Bytes → ℤ → ℤ → Io Bool
connect_tcp host port timeout = call (getaddrinfo host port) >>= λ resolved.
    if not resolved
    then finish false
    else call socket >>= λ opened.
        if not opened
        then act freeaddrinfo >> finish false
        else set_timeouts timeout >> call connect >>= λ connected.
            if not connected
            then act freeaddrinfo >> close_with false
            else act freeaddrinfo >> finish true

-- `buffer[received] = '\0'; response = buffer;`, where `recv` has a positive result.
abbrev pub text_of : Option Bytes → Bytes
text_of none = []
text_of (some bytes) = until_zero bytes

-- `readResponse`: wait with `select`, and take what one `recv` delivers.
unfoldable pub read_response : ℤ → Io Bytes
read_response timeout = act (setsockopt timeout) >> call (select timeout) >>= λ ready.
    if ready then (recv >>= λ r. finish (text_of r)) else finish []

-- `sendCommand`: `send(sock, cmd.c_str(), cmd.length(), 0) > 0`
unfoldable pub send_command : Bytes → Io Bool
send_command command = call (send (command ++ crlf))

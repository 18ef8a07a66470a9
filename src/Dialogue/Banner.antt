-- ===== src/Dialogue/Banner.antt =====
-- The text that plugins/smtp/check_smtp.cpp and plugins/ssh/check_ssh.cpp have in a copy each: connect, take what the
-- server says first, and look for a text in it.
use netmon_plugins.Net.{
  Io, finish, call, recv, getaddrinfo, socket, connect, freeaddrinfo, close, ◌>>=◌, ◌>>◌,
}
use netmon_plugins.Net.Tcp.{act, set_timeouts}
use netmon_plugins.HttpApi.Response.{until_zero}
use netmon_plugins.Prelude.Text.{Bytes, contains}
use netmon_plugins.Prelude.{Bool, false, not, if◌then◌else◌, [], ◌∷◌, ℤ, Option, none, some}

-- `bytes > 0`, and the text in the buffer up to its first zero byte.
abbrev pub text_has : Bytes → Option Bytes → Bool
text_has word none = false
text_has word (some []) = false
text_has word (some (c ∷ s)) = contains word (until_zero (c ∷ s))

unfoldable pub check_banner : Bytes → ℤ → ℤ → Bytes → Io Bool
check_banner host port timeout word = call (getaddrinfo host port) >>= λ resolved.
    if not resolved
    then finish false
    else call socket >>= λ opened.
        if not opened
        then act freeaddrinfo >> finish false
        else set_timeouts timeout >> call connect >>= λ connected.
            if not connected
            then act close >> act freeaddrinfo >> finish false
            else recv >>= λ r. act close >> act freeaddrinfo >> finish (text_has word r)

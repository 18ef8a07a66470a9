-- ===== src/Net/Held.antt =====
-- The resources of a connection: the list of `getaddrinfo` and the socket.
use netmon_plugins.Net.{
  called, getaddrinfo, socket, connect, freeaddrinfo, close, sendto, Io, World, run,
}
use netmon_plugins.Net.Logic.{Machine, Holds, Holds-run, Then_eq, advance}
use netmon_plugins.Net.Tcp.{connect_tcp, read_response, send_command, close_with}
use netmon_plugins.Prelude.Text.{Bytes}
use netmon_plugins.Prelude.{
  ℤ, Bool, true, false, ◌&&◌, not, none, some, [], ◌≡◌, if◌then◌else◌, arith,
}

pub record Held : Type 0 where
  pub addresses : Bool
  pub open_socket : Bool

abbrev pub nothing_held : Held
nothing_held = record { addresses = false; open_socket = false }

-- Nothing is used or given back that is not held, and nothing is taken that is held already.
abbrev pub holding : Machine Held
holding (called (getaddrinfo host port) b) h =
    if h.addresses then none else some (record h { addresses = b })
holding (called socket b) h =
    if h.addresses && not h.open_socket then some (record h { open_socket = b }) else none
holding (called connect b) h = if h.addresses && h.open_socket then some h else none
holding (called (sendto bytes) b) h = if h.addresses && h.open_socket then some h else none
holding (called freeaddrinfo b) h =
    if h.addresses then some (record h { addresses = false }) else none
holding (called close b) h = if h.open_socket then some (record h { open_socket = false }) else none
holding e h = if h.open_socket then some h else none

-- A socket that is open, and nothing else.
abbrev pub socket_held : Held
socket_held = record { addresses = false; open_socket = true }

-- Started with nothing and with no regard to its result, the program gives back all that it takes.
abbrev pub GivesBack : {A : Type 0} → Io A → Held → Type 0
GivesBack p h = Holds holding p (λ a t. t ≡ nothing_held) h

pub GivesBack-run :
    {A : Type 0} (w : World) (p : Io A)
    → GivesBack p nothing_held
    → advance holding (run w [] p).0 nothing_held ≡ some nothing_held
GivesBack-run w p h = Then_eq _ nothing_held (Holds-run holding w [] p _ nothing_held h)

pub connect_tcp-Holds :
    (host : Bytes) (port timeout : ℤ)
    → Holds holding
        (connect_tcp host port timeout)
        (λ ok h. h ≡ record { addresses = false; open_socket = ok })
        nothing_held
unfolding connect_tcp
connect_tcp-Holds host port timeout = ground arith

pub read_response-Holds :
    (timeout : ℤ) → Holds holding (read_response timeout) (λ r h. h ≡ socket_held) socket_held
unfolding read_response
read_response-Holds timeout = ground arith

pub send_command-Holds :
    (command : Bytes) → Holds holding (send_command command) (λ r h. h ≡ socket_held) socket_held
unfolding send_command
send_command-Holds command = ground arith

pub close_with-GivesBack : {A : Type 0} (a : A) → GivesBack (close_with a) socket_held
close_with-GivesBack a = ground arith

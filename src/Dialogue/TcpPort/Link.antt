-- ===== src/Dialogue/TcpPort/Link.antt =====
-- When plugins/tcp/check_tcp.cpp takes a port for open.
use netmon_plugins.Dialogue.TcpPort.{Config, check, connect_port, await_port, report}
use netmon_plugins.Net.{called, connect, getsockopt, select, World, run}
use netmon_plugins.Net.Logic.{Machine, Holds, Holds-run, Then, advance}
use netmon_plugins.Prelude.{
  Bool, true, false, none, some, [], ◌≡◌, ◌||◌, is_empty, ltb_ℤ, pos, arith, if◌then◌else◌,
}

-- What the calls have shown of the port: nothing yet; `connect` has not succeeded; the socket can be written to, and its
-- error is not known; the port is taken for open; it is not.
pub data Link : Type 0 where
  untried refused writable open_port lost : Link

-- `connect` succeeds, or else `select` finds the socket writable in time and then `getsockopt` finds no error. Any
-- other order of these calls is none of the plugin's.
abbrev pub linking : Machine Link
linking (called connect b) untried = some (if b then open_port else refused)
linking (called connect b) l = none
linking (called (select timeout) b) refused = some (if b then writable else lost)
linking (called (select timeout) b) l = none
linking (called getsockopt b) writable = some (if b then open_port else lost)
linking (called getsockopt b) l = none
linking e l = some l

abbrev pub is_open : Link → Bool
is_open open_port = true
is_open l = false

check-Holds :
    (c : Config)
    → (is_empty c.hostname || ltb_ℤ c.port (pos 0)) ≡ false
    → Holds linking (check c) (λ r l. r ≡ report c (is_open l)) untried
unfolding check connect_port await_port
check-Holds c given = rw given (ground arith)

-- Where a host and a port are given: in every run the result is the report of whether `connect` succeeded, or `select`
-- found the socket writable before the timeout and `getsockopt` then found no error. It says nothing of the reason for
-- which `connect` failed, which the plugin does not look at.
pub tcp_check-linked :
    (w : World) (c : Config)
    → (is_empty c.hostname || ltb_ℤ c.port (pos 0)) ≡ false
    → Then
        (advance linking (run w [] (check c)).0 untried)
        (λ l. (run w [] (check c)).1 ≡ report c (is_open l))
tcp_check-linked w c given = Holds-run linking w [] (check c) _ untried (check-Holds c given)

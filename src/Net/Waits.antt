-- ===== src/Net/Waits.antt =====
-- The waiting of a program: each `select` is counted, and `recv` is only called on a socket that has data.
use netmon_plugins.Net.{called, received, select, Io, World, run}
use netmon_plugins.Net.Logic.{Machine, Holds, Holds-run, Then, advance}
use netmon_plugins.Net.Tcp.{connect_tcp, read_response, send_command, close_with}
use netmon_plugins.Prelude.Text.{Bytes}
use netmon_plugins.Prelude.{
  ℕ, zero, suc, ℤ, eqb_ℤ, Bool, true, false, none, some, Option, [], ◌≡◌, if◌then◌else◌, arith,
}

-- How many waits are left, and whether the last one found data that is still to be read.
pub record Budget : Type 0 where
  pub left : ℕ
  pub has_data : Bool

-- A wait is as long as the options say.
abbrev pub waiting : ℤ → Machine Budget
waiting timeout (called (select t) b) s = elim s.left [
  | zero ↦ none
  | suc n ↦ if eqb_ℤ t timeout then some (record { left = n; has_data = b }) else none
]
waiting timeout (received r) s = if s.has_data then some (record s { has_data = false }) else none
waiting timeout e s = some s

abbrev pub waits : ℕ → Budget
waits n = record { left = n; has_data = false }

-- The program waits at most that often.
abbrev pub WaitsAtMost : {A : Type 0} → ℤ → Io A → ℕ → Type 0
WaitsAtMost timeout p n = Holds (waiting timeout) p (λ a s. Unit) (waits n)

-- The trace stays within the budget.
abbrev pub IsAllowed : Option Budget → Type 0
IsAllowed o = Then o (λ s. Unit)

eqb_ℤ_refl : (a : ℤ) → eqb_ℤ a a ≡ true
eqb_ℤ_refl a = ground arith

pub read_response-Holds :
    (timeout : ℤ) (n : ℕ)
    → Holds (waiting timeout) (read_response timeout) (λ r s. s ≡ waits n) (waits (suc n))
unfolding read_response
read_response-Holds timeout n = λ _. rw (eqb_ℤ_refl timeout) (ground arith)

pub connect_tcp-Holds :
    (host : Bytes) (port timeout limit : ℤ) (n : ℕ)
    → Holds (waiting limit) (connect_tcp host port timeout) (λ ok s. s ≡ waits n) (waits n)
unfolding connect_tcp
connect_tcp-Holds host port timeout limit n = ground arith

pub send_command-Holds :
    (limit : ℤ) (command : Bytes) (n : ℕ)
    → Holds (waiting limit) (send_command command) (λ ok s. s ≡ waits n) (waits n)
unfolding send_command
send_command-Holds limit command n = ground arith

pub close_with-WaitsAtMost :
    {A : Type 0} (limit : ℤ) (a : A) (n : ℕ) → WaitsAtMost limit (close_with a) n
close_with-WaitsAtMost limit a n = ground arith

pub WaitsAtMost-run :
    {A : Type 0} (limit : ℤ) (w : World) (p : Io A) (n : ℕ)
    → WaitsAtMost limit p n
    → IsAllowed (advance (waiting limit) (run w [] p).0 (waits n))
WaitsAtMost-run limit w p n h = Holds-run (waiting limit) w [] p _ (waits n) h

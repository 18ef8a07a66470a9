-- ===== src/Dialogue/Talk.antt =====
-- The steps that the conversations of the plugins are made of. Each plugin has them in a copy of its own, with
-- `readResponse`, `sendCommand`, and `close(sock); return false;` on every failure.
use netmon_plugins.Net.{Io, finish, ◌>>=◌, ◌>>◌}
use netmon_plugins.Net.Tcp.{connect_tcp, read_response, send_command, close_with}
use netmon_plugins.Prelude.Text.{Bytes, codes}
use netmon_plugins.Prelude.{Bool, false, not, if◌then◌else◌, is_empty, ℤ}

-- The conversation behind a connection that is made.
abbrev pub connected_to : Bytes → ℤ → ℤ → Io Bool → Io Bool
connected_to host port timeout talk =
    connect_tcp host port timeout >>= λ connected. if not connected then finish false else talk

-- A reply that ends the check if it is a refusal.
abbrev pub demand : (Bytes → Bool) → ℤ → (Bytes → Io Bool) → Io Bool
demand is_refusal timeout continue = read_response timeout >>= λ response.
    if is_refusal response then close_with false else continue response

-- A command that must go out.
abbrev pub say : Bytes → Io Bool → Io Bool
say command continue =
    send_command command >>= λ sent. if not sent then close_with false else continue

-- A command that may be lost, and the result that its reply gives.
abbrev pub part_with : ℤ → Bytes → (Bytes → Bool) → Io Bool
part_with timeout command result =
    send_command command >> read_response timeout >>= λ response. close_with (result response)

-- The last command, whose reply is read and dropped.
abbrev pub quit_with : ℤ → Bool → Io Bool
quit_with timeout result = part_with timeout (codes "QUIT") (λ r. result)

-- How `check` ends, and what it does without a host.
abbrev pub reporting : {A : Type 0} → Bytes → A → Io Bool → (Bool → A) → Io A
reporting host missing talk report =
    if is_empty host then finish missing else (talk >>= λ available. finish (report available))

-- ===== src/Dialogue/Closing.antt =====
-- The steps of a conversation give back the connection.
use netmon_plugins.Dialogue.Talk.{connected_to, demand, say, part_with, reporting}
use netmon_plugins.Net.{Io, finish, ◌>>=◌, ◌>>◌}
use netmon_plugins.Net.Held.{
  holding, nothing_held, socket_held, GivesBack, connect_tcp-Holds, read_response-Holds,
  send_command-Holds, close_with-GivesBack,
}
use netmon_plugins.Net.Logic.{Holds, Holds-then, Holds-if}
use netmon_plugins.Net.Tcp.{connect_tcp, read_response, send_command}
use netmon_plugins.Prelude.Text.{Bytes}
use netmon_plugins.Prelude.{Bool, true, false, ◌≡◌, refl, not, is_empty, if◌then◌else◌, ℤ}

-- Behind a step that leaves the socket as it is.
then_GivesBack :
    {A B : Type 0} (p : Io A) (f : A → Io B)
    → Holds holding p (λ a h. h ≡ socket_held) socket_held
    → ((a : A) → GivesBack (f a) socket_held)
    → GivesBack (p >>= f) socket_held
then_GivesBack p f h g = Holds-then holding p f _ socket_held h (λ a t e. rw e (g a))

behind_connect :
    (ok : Bool) (talk : Io Bool)
    → GivesBack talk socket_held
    → GivesBack
        (if not ok then finish false else talk)
        (record { addresses = false; open_socket = ok })
behind_connect true talk h = h
behind_connect false talk h = refl

pub connected_to-GivesBack :
    (host : Bytes) (port timeout : ℤ) (talk : Io Bool)
    → GivesBack talk socket_held
    → GivesBack (connected_to host port timeout talk) nothing_held
connected_to-GivesBack host port timeout talk h =
    Holds-then holding (connect_tcp host port timeout) _ _ nothing_held
      (connect_tcp-Holds host port timeout) (λ ok t e. rw e (behind_connect ok talk h))

pub if-GivesBack :
    (b : Bool) (p q : Io Bool)
    → GivesBack p socket_held
    → GivesBack q socket_held
    → GivesBack (if b then p else q) socket_held
if-GivesBack b p q h k = Holds-if holding b p q _ socket_held h k

pub demand-GivesBack :
    (is_refusal : Bytes → Bool) (timeout : ℤ) (continue : Bytes → Io Bool)
    → ((r : Bytes) → GivesBack (continue r) socket_held)
    → GivesBack (demand is_refusal timeout continue) socket_held
demand-GivesBack is_refusal timeout continue h =
    then_GivesBack (read_response timeout) _ (read_response-Holds timeout)
      (λ r. Holds-if holding (is_refusal r) _ _ _ socket_held (close_with-GivesBack false) (h r))

pub say-GivesBack :
    (command : Bytes) (continue : Io Bool)
    → GivesBack continue socket_held
    → GivesBack (say command continue) socket_held
say-GivesBack command continue h =
    then_GivesBack (send_command command) _ (send_command-Holds command)
      (λ b. Holds-if holding (not b) _ _ _ socket_held (close_with-GivesBack false) h)

pub part_with-GivesBack :
    (timeout : ℤ) (command : Bytes) (result : Bytes → Bool)
    → GivesBack (part_with timeout command result) socket_held
part_with-GivesBack timeout command result =
    then_GivesBack (send_command command >> read_response timeout) _
      (Holds-then holding (send_command command) _ _ socket_held (send_command-Holds command)
        (λ b t e. rw e (read_response-Holds timeout)))
      (λ r. close_with-GivesBack (result r))

pub reporting-GivesBack :
    {A : Type 0} (host : Bytes) (missing : A) (talk : Io Bool) (report : Bool → A)
    → GivesBack talk nothing_held
    → GivesBack (reporting host missing talk report) nothing_held
reporting-GivesBack host missing talk report h =
    Holds-if holding (is_empty host) _ _ _ nothing_held refl
      (Holds-then holding talk _ _ nothing_held h (λ b t e. e))

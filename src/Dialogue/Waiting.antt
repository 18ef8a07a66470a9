-- ===== src/Dialogue/Waiting.antt =====
-- How often the steps of a conversation wait for the service.
use netmon_plugins.Dialogue.Talk.{connected_to, demand, say, part_with, reporting}
use netmon_plugins.Net.{Io, ◌>>=◌, ◌>>◌}
use netmon_plugins.Net.Logic.{Holds, Holds-then, Holds-if}
use netmon_plugins.Net.Tcp.{connect_tcp, read_response, send_command}
use netmon_plugins.Net.Waits.{
  waiting, waits, WaitsAtMost, connect_tcp-Holds, read_response-Holds, send_command-Holds,
  close_with-WaitsAtMost,
}
use netmon_plugins.Prelude.Text.{Bytes}
use netmon_plugins.Prelude.{ℕ, suc, Bool, false, ◌≡◌, not, is_empty, if◌then◌else◌, ℤ}

-- Behind a step that leaves `n` waits of `m`.
then_WaitsAtMost :
    {A B : Type 0} (limit : ℤ) (p : Io A) (f : A → Io B) (m n : ℕ)
    → Holds (waiting limit) p (λ a s. s ≡ waits n) (waits m)
    → ((a : A) → WaitsAtMost limit (f a) n)
    → WaitsAtMost limit (p >>= f) m
then_WaitsAtMost limit p f m n h g =
    Holds-then (waiting limit) p f _ (waits m) h (λ a t e. rw e (g a))

pub connected_to-WaitsAtMost :
    (host : Bytes) (port timeout limit : ℤ) (talk : Io Bool) (n : ℕ)
    → WaitsAtMost limit talk n
    → WaitsAtMost limit (connected_to host port timeout talk) n
connected_to-WaitsAtMost host port timeout limit talk n h =
    then_WaitsAtMost limit (connect_tcp host port timeout) _ n n
      (connect_tcp-Holds host port timeout limit n)
      (λ ok. Holds-if (waiting limit) (not ok) _ _ _ (waits n) tt h)

pub if-WaitsAtMost :
    (limit : ℤ) (b : Bool) (p q : Io Bool) (n : ℕ)
    → WaitsAtMost limit p n
    → WaitsAtMost limit q n
    → WaitsAtMost limit (if b then p else q) n
if-WaitsAtMost limit b p q n h k = Holds-if (waiting limit) b p q _ (waits n) h k

pub demand-WaitsAtMost :
    (is_refusal : Bytes → Bool) (timeout : ℤ) (continue : Bytes → Io Bool) (n : ℕ)
    → ((r : Bytes) → WaitsAtMost timeout (continue r) n)
    → WaitsAtMost timeout (demand is_refusal timeout continue) (suc n)
demand-WaitsAtMost is_refusal timeout continue n h =
    then_WaitsAtMost timeout (read_response timeout) _ (suc n) n (read_response-Holds timeout n)
      (λ r.
        Holds-if (waiting timeout) (is_refusal r) _ _ _ (waits n)
          (close_with-WaitsAtMost timeout false n) (h r))

pub say-WaitsAtMost :
    (limit : ℤ) (command : Bytes) (continue : Io Bool) (n : ℕ)
    → WaitsAtMost limit continue n
    → WaitsAtMost limit (say command continue) n
say-WaitsAtMost limit command continue n h =
    then_WaitsAtMost limit (send_command command) _ n n (send_command-Holds limit command n) (λ b.
      Holds-if (waiting limit) (not b) _ _ _ (waits n) (close_with-WaitsAtMost limit false n) h)

pub part_with-WaitsAtMost :
    (timeout : ℤ) (command : Bytes) (result : Bytes → Bool) (n : ℕ)
    → WaitsAtMost timeout (part_with timeout command result) (suc n)
part_with-WaitsAtMost timeout command result n =
    then_WaitsAtMost timeout (send_command command >> read_response timeout) _ (suc n) n
      (Holds-then (waiting timeout) (send_command command) _ _ (waits (suc n))
        (send_command-Holds timeout command (suc n))
        (λ b t e. rw e (read_response-Holds timeout n)))
      (λ r. close_with-WaitsAtMost timeout (result r) n)

pub reporting-WaitsAtMost :
    {A : Type 0} (limit : ℤ) (host : Bytes) (missing : A) (talk : Io Bool) (report : Bool → A)
    (n : ℕ)
    → WaitsAtMost limit talk n
    → WaitsAtMost limit (reporting host missing talk report) n
reporting-WaitsAtMost limit host missing talk report n h =
    Holds-if (waiting limit) (is_empty host) _ _ _ (waits n) tt
      (Holds-then (waiting limit) talk _ _ (waits n) h (λ b t e. tt))

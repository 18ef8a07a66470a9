-- ===== src/Dialogue/Script/Playing.antt =====
-- The steps of a conversation play a script.
use netmon_plugins.Dialogue.Script.{
  Script, over, line, parting, reply, Stage, offline, playing, follow, outcome, demanded, farewell,
}
use netmon_plugins.Dialogue.Talk.{connected_to, demand, say, part_with, reporting}
use netmon_plugins.HttpApi.Response.{crlf}
use netmon_plugins.Net.{Io, finish, ◌>>◌, World, run}
use netmon_plugins.Net.Logic.{Holds, Holds-run, Holds-then, Then, advance}
use netmon_plugins.Net.Tcp.{connect_tcp, read_response, send_command, close_with}
use netmon_plugins.Net.Wire.{listening}
use netmon_plugins.Prelude.Text.{Bytes, text_eq_refl}
use netmon_plugins.Prelude.{
  Bool, true, false, some, [], ◌++◌, ◌≡◌, refl, not, is_empty, if◌then◌else◌, arith, ℤ,
}

-- Every message is the script's, and the result is what the script has come to.
abbrev pub Plays : Io Bool → Stage → Type 0
Plays p s = Holds (listening follow) p (λ b t. outcome t ≡ some b) s

pub if-Plays :
    (b : Bool) (p q : Io Bool) (s t : Script)
    → Plays p (playing s)
    → Plays q (playing t)
    → Plays (if b then p else q) (playing (if b then s else t))
if-Plays true p q s t h k = h
if-Plays false p q s t h k = k

connect_tcp-Holds :
    (host : Bytes) (port timeout : ℤ) (s : Script)
    → Holds
        (listening follow)
        (connect_tcp host port timeout)
        (λ ok t. if ok then t ≡ playing s else outcome t ≡ some false)
        (offline s)
unfolding connect_tcp follow outcome
connect_tcp-Holds host port timeout s = ground arith

read_response-Holds :
    (timeout : ℤ) (next : Bytes → Script)
    → Holds
        (listening follow)
        (read_response timeout)
        (λ r t. t ≡ playing (next r))
        (playing (reply next))
unfolding read_response follow
read_response-Holds timeout next = ground arith

send_line-Holds :
    (l : Bytes) (s : Script)
    → Holds
        (listening follow)
        (send_command l)
        (λ b t. t ≡ playing (if b then s else over false))
        (playing (line l s))
unfolding send_command follow
send_line-Holds l s = rw (text_eq_refl (l ++ crlf)) (ground arith)

send_parting-Holds :
    (l : Bytes) (s : Script)
    → Holds (listening follow) (send_command l) (λ b t. t ≡ playing s) (playing (parting l s))
unfolding send_command follow
send_parting-Holds l s = rw (text_eq_refl (l ++ crlf)) (ground arith)

pub close_with-Plays : (b : Bool) → Plays (close_with b) (playing (over b))
unfolding outcome
close_with-Plays b = ground arith

behind_connect :
    (ok : Bool) (talk : Io Bool) (s : Script) (t : Stage)
    → (if ok then t ≡ playing s else outcome t ≡ some false)
    → Plays talk (playing s)
    → Plays (if not ok then finish false else talk) t
behind_connect true talk s t e h = rw e h
behind_connect false talk s t e h = e

pub connected_to-Plays :
    (host : Bytes) (port timeout : ℤ) (talk : Io Bool) (s : Script)
    → Plays talk (playing s)
    → Plays (connected_to host port timeout talk) (offline s)
connected_to-Plays host port timeout talk s h =
    Holds-then (listening follow) (connect_tcp host port timeout) _ _ (offline s)
      (connect_tcp-Holds host port timeout s) (λ ok t e. behind_connect ok talk s t e h)

pub demand-Plays :
    (is_refusal : Bytes → Bool) (timeout : ℤ) (continue : Bytes → Io Bool) (next : Bytes → Script)
    → ((r : Bytes) → Plays (continue r) (playing (next r)))
    → Plays (demand is_refusal timeout continue) (playing (demanded is_refusal next))
demand-Plays is_refusal timeout continue next h =
    Holds-then (listening follow) (read_response timeout) _ _ (playing (demanded is_refusal next))
      (read_response-Holds timeout _)
      (λ r t e. rw e (if-Plays (is_refusal r) _ _ _ _ (close_with-Plays false) (h r)))

behind_line :
    (sent : Bool) (continue : Io Bool) (s : Script)
    → Plays continue (playing s)
    → Plays
        (if not sent then close_with false else continue)
        (playing (if sent then s else over false))
behind_line true continue s h = h
behind_line false continue s h = close_with-Plays false

pub say-Plays :
    (l : Bytes) (continue : Io Bool) (s : Script)
    → Plays continue (playing s)
    → Plays (say l continue) (playing (line l s))
say-Plays l continue s h =
    Holds-then (listening follow) (send_command l) _ _ (playing (line l s)) (send_line-Holds l s)
      (λ sent t e. rw e (behind_line sent continue s h))

pub part_with-Plays :
    (timeout : ℤ) (l : Bytes) (result : Bytes → Bool)
    → Plays (part_with timeout l result) (playing (farewell l result))
part_with-Plays timeout l result =
    Holds-then (listening follow) (send_command l >> read_response timeout) _ _
      (playing (farewell l result))
      (Holds-then (listening follow) (send_command l) _ (λ r t. t ≡ playing (over (result r))) _
        (send_parting-Holds l _)
        (λ sent t e. rw e (read_response-Holds timeout (λ r. over (result r)))))
      (λ r t e. rw e (close_with-Plays (result r)))

-- The program's result is the report of what the script has come to.
abbrev pub Reports : {A : Type 0} → Io A → (Bool → A) → Stage → Type 0
Reports p report s =
    Holds (listening follow) p (λ a t. (b : Bool) × (outcome t ≡ some b) × (a ≡ report b)) s

pub reporting-Reports :
    {A : Type 0} (host : Bytes) (missing : A) (talk : Io Bool) (report : Bool → A) (s : Stage)
    → is_empty host ≡ false
    → Plays talk s
    → Reports (reporting host missing talk report) report s
reporting-Reports host missing talk report s given h =
    rw given (Holds-then (listening follow) talk _ _ s h (λ b t e. (b, e, refl)))

-- A run of the program in a world, read as messages, is the script's, and its result is the report of what the
-- script has come to.
abbrev pub IsConversation : {A : Type 0} → World → Io A → (Bool → A) → Script → Type 0
IsConversation w p report s =
    Then (advance (listening follow) (run w [] p).0 (offline s))
      (λ t. (b : Bool) × (outcome t ≡ some b) × ((run w [] p).1 ≡ report b))

pub Reports-run :
    {A : Type 0} (w : World) (p : Io A) (report : Bool → A) (s : Script)
    → Reports p report (offline s)
    → IsConversation w p report s
Reports-run w p report s h = Holds-run (listening follow) w [] p _ (offline s) h

-- ===== src/Dialogue/Probes.antt =====
-- The checks of Dialogue that take one answer, and check_jabber and check_zookeeper: how they use the connection.
use netmon_plugins.Dialogue.Banner.{check_banner}
use netmon_plugins.Dialogue.Jabber
use netmon_plugins.Dialogue.Sip
use netmon_plugins.Dialogue.Smtp
use netmon_plugins.Dialogue.Ssh
use netmon_plugins.Dialogue.Closing.{reporting-GivesBack}
use netmon_plugins.Dialogue.TcpPort
use netmon_plugins.Dialogue.UdpPort
use netmon_plugins.Dialogue.Zookeeper
use netmon_plugins.Dialogue.Zookeeper.{go_on, piece_of}
use netmon_plugins.Net.{Io, finish}
use netmon_plugins.Net.Held.{holding, nothing_held, socket_held, GivesBack, connect_tcp-Holds}
use netmon_plugins.Net.Logic.{Holds, Holds-if, Holds-then}
use netmon_plugins.Net.Tcp.{connect_tcp}
use netmon_plugins.Prelude.Text.{Bytes, codes, contains}
use netmon_plugins.Prelude.{
  ℕ, is_empty, zero, suc, Bool, true, false, ◌≡◌, refl, some, none, [], ◌∷◌, ◌++◌, not, ℤ, arith,
  if◌then◌else◌, Option,
}

check_banner-GivesBack :
    (host : Bytes) (port timeout : ℤ) (word : Bytes)
    → GivesBack (check_banner host port timeout word) nothing_held
unfolding check_banner
check_banner-GivesBack host port timeout word = ground arith

pub smtp_check-GivesBack : (c : Smtp.Config) → GivesBack (Smtp.check c) nothing_held
unfolding Smtp.check Smtp.check_smtp
smtp_check-GivesBack c =
    reporting-GivesBack c.hostname _ _ _
      (check_banner-GivesBack c.hostname c.port c.timeout_seconds c.expect_string)

pub ssh_check-GivesBack : (c : Ssh.Config) → GivesBack (Ssh.check c) nothing_held
unfolding Ssh.check Ssh.check_ssh
ssh_check-GivesBack c =
    reporting-GivesBack c.hostname _ _ _
      (check_banner-GivesBack c.hostname c.port c.timeout_seconds (codes "SSH"))

pub tcp_check-GivesBack : (c : TcpPort.Config) → GivesBack (TcpPort.check c) nothing_held
unfolding TcpPort.check TcpPort.connect_port TcpPort.await_port
tcp_check-GivesBack c = ground arith

pub udp_check-GivesBack : (c : UdpPort.Config) → GivesBack (UdpPort.check c) nothing_held
unfolding UdpPort.check UdpPort.check_udp
udp_check-GivesBack c = ground arith

pub sip_check-GivesBack : (c : Sip.Config) → GivesBack (Sip.check c) nothing_held
unfolding Sip.check Sip.connect_to_sip Sip.send_sip_options
sip_check-GivesBack c = ground arith

pub jabber_check-GivesBack : (c : Jabber.Config) → GivesBack (Jabber.check c) nothing_held
unfolding Jabber.check Jabber.receive_xmpp Jabber.send_xmpp connect_tcp
jabber_check-GivesBack c = ground arith

go_on-Holds :
    (rest : Bytes → Io (Option Bytes)) (response : Bytes) (piece : Option Bytes)
    → ((s : Bytes) → Holds holding (rest s) (λ r h. h ≡ socket_held) socket_held)
    → Holds holding (go_on rest response piece) (λ r h. h ≡ socket_held) socket_held
go_on-Holds rest response none h = refl
go_on-Holds rest response (some piece) h =
    Holds-if holding (contains (10 ∷ []) (response ++ piece)) _ _ (λ r k. k ≡ socket_held)
      socket_held refl (h (response ++ piece))

receive_line-Holds :
    (n : ℕ) (response : Bytes)
    → Holds holding (Zookeeper.receive_line n response) (λ r h. h ≡ socket_held) socket_held
unfolding Zookeeper.receive_line
receive_line-Holds zero response = refl
receive_line-Holds (suc n) response =
    λ r. go_on-Holds (Zookeeper.receive_line n) response (piece_of r) (receive_line-Holds n)

send_command-Holds :
    (n : ℕ) (command : Bytes)
    → Holds holding
        (Zookeeper.send_zookeeper_command n command)
        (λ r h. h ≡ socket_held)
        socket_held
unfolding Zookeeper.send_zookeeper_command
send_command-Holds n command = λ sent.
    Holds-if holding (not sent) _ _ (λ r h. h ≡ socket_held) socket_held refl
      (receive_line-Holds n [])

behind_connect :
    {A : Type 0} (ok : Bool) (failed : A) (talk : Io A)
    → GivesBack talk socket_held
    → GivesBack
        (if not ok then finish failed else talk)
        (record { addresses = false; open_socket = ok })
behind_connect true failed talk h = h
behind_connect false failed talk h = refl

pub zookeeper_check-GivesBack :
    (n : ℕ) (c : Zookeeper.Config) → GivesBack (Zookeeper.check n c) nothing_held
unfolding Zookeeper.check
zookeeper_check-GivesBack n c =
    Holds-if holding (is_empty c.hostname) _ _ (λ r h. h ≡ nothing_held) nothing_held refl
      (Holds-then holding (connect_tcp c.hostname c.port c.timeout_seconds) _ _ nothing_held
        (connect_tcp-Holds c.hostname c.port c.timeout_seconds)
        (λ ok t e. rw e (
          behind_connect ok _ _ (
            Holds-then holding
              (Zookeeper.send_zookeeper_command n (Zookeeper.command_of c.check_type)) _ _
              socket_held (send_command-Holds n (Zookeeper.command_of c.check_type))
              (λ r t' e'. rw e' (ground arith))))))

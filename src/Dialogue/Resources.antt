-- ===== src/Dialogue/Resources.antt =====
-- The connections of all plugins of Dialogue.
use netmon_plugins.Dialogue.Conforms.{IsTidy}
use netmon_plugins.Dialogue.Ftp
use netmon_plugins.Dialogue.Ftp.Session.{ftp_check-IsTidy}
use netmon_plugins.Dialogue.Imap
use netmon_plugins.Dialogue.Imap.Session.{imap_check-IsTidy}
use netmon_plugins.Dialogue.Ircd
use netmon_plugins.Dialogue.Ircd.Session.{ircd_check-IsTidy}
use netmon_plugins.Dialogue.Jabber
use netmon_plugins.Dialogue.Nntp
use netmon_plugins.Dialogue.Nntp.Session.{nntp_check-IsTidy}
use netmon_plugins.Dialogue.Pop
use netmon_plugins.Dialogue.Pop.Session.{pop_check-IsTidy}
use netmon_plugins.Dialogue.Probes.{
  smtp_check-GivesBack, ssh_check-GivesBack, tcp_check-GivesBack, udp_check-GivesBack,
  sip_check-GivesBack, jabber_check-GivesBack, zookeeper_check-GivesBack,
}
use netmon_plugins.Dialogue.Sip
use netmon_plugins.Dialogue.Smtp
use netmon_plugins.Dialogue.Ssh
use netmon_plugins.Dialogue.TcpPort
use netmon_plugins.Dialogue.Telnet
use netmon_plugins.Dialogue.Telnet.Session.{telnet_check-IsTidy}
use netmon_plugins.Dialogue.UdpPort
use netmon_plugins.Dialogue.Zookeeper
use netmon_plugins.Net.{Io, World, run}
use netmon_plugins.Net.Held.{holding, nothing_held, GivesBack-run}
use netmon_plugins.Net.Logic.{advance}
use netmon_plugins.Prelude.{ℕ, Bool, ◌≡◌, some, []}

-- In every run of check_pop, check_imap, check_ftp, check_nntp, check_ircd and check_telnet, each call uses what
-- is held, the address list and the socket are given back, `recv` is only called where `select` has found data,
-- and there are at most 4, 3, 4, 4, 3 and 2 waits, each as long as the options say.
pub sessions-AreTidy :
    (w : World) (built_with_ssl : Bool) (pop : Pop.Config) (imap : Imap.Config) (ftp : Ftp.Config)
    (nntp : Nntp.Config) (ircd : Ircd.Config) (telnet : Telnet.Config)
    → IsTidy w pop.timeout_seconds 4 (Pop.check built_with_ssl pop)
      × IsTidy w imap.timeout_seconds 3 (Imap.check built_with_ssl imap)
      × IsTidy w ftp.timeout_seconds 4 (Ftp.check ftp)
      × IsTidy w nntp.timeout_seconds 4 (Nntp.check nntp)
      × IsTidy w ircd.timeout_seconds 3 (Ircd.check ircd)
      × IsTidy w telnet.timeout_seconds 2 (Telnet.check telnet)
sessions-AreTidy w built_with_ssl pop imap ftp nntp ircd telnet = (
  pop_check-IsTidy w built_with_ssl pop,
  imap_check-IsTidy w built_with_ssl imap,
  ftp_check-IsTidy w ftp,
  nntp_check-IsTidy w nntp,
  ircd_check-IsTidy w ircd,
  telnet_check-IsTidy w telnet,
)

-- All that the run takes is given back, and nothing is used that is not held.
abbrev pub Closes : {A : Type 0} → World → Io A → Type 0
Closes w p = advance holding (run w [] p).0 nothing_held ≡ some nothing_held

-- In every run of check_smtp, check_ssh, check_tcp, check_udp, check_sip, check_jabber and check_zookeeper, each
-- call uses what is held, and the address list and the socket are given back.
pub probes-Close :
    (w : World) (n : ℕ) (smtp : Smtp.Config) (ssh : Ssh.Config) (tcp : TcpPort.Config)
    (udp : UdpPort.Config) (sip : Sip.Config) (jabber : Jabber.Config)
    (zookeeper : Zookeeper.Config)
    → Closes w (Smtp.check smtp)
      × Closes w (Ssh.check ssh)
      × Closes w (TcpPort.check tcp)
      × Closes w (UdpPort.check udp)
      × Closes w (Sip.check sip)
      × Closes w (Jabber.check jabber)
      × Closes w (Zookeeper.check n zookeeper)
probes-Close w n smtp ssh tcp udp sip jabber zookeeper = (
  GivesBack-run w (Smtp.check smtp) (smtp_check-GivesBack smtp),
  GivesBack-run w (Ssh.check ssh) (ssh_check-GivesBack ssh),
  GivesBack-run w (TcpPort.check tcp) (tcp_check-GivesBack tcp),
  GivesBack-run w (UdpPort.check udp) (udp_check-GivesBack udp),
  GivesBack-run w (Sip.check sip) (sip_check-GivesBack sip),
  GivesBack-run w (Jabber.check jabber) (jabber_check-GivesBack jabber),
  GivesBack-run w (Zookeeper.check n zookeeper) (zookeeper_check-GivesBack n zookeeper),
)

-- ===== src/Dialogue/Imap/Session.antt =====
-- The conversation of plugins/imap/check_imap.cpp against the protocol, and its use of the connection.
use netmon_plugins.Dialogue.Imap.{Config, check, check_imap, effective, converse, report, lacks}
use netmon_plugins.Dialogue.Conforms.{
  Conforms, close_with-Conforms, if-Conforms, demand-Conforms, say-Conforms, part_with-Conforms,
  check-IsTidy, check_plays, IsTidy,
}
use netmon_plugins.Dialogue.Script.{Script, over, line, demanded, farewell}
use netmon_plugins.Dialogue.Script.Playing.{IsConversation}
use netmon_plugins.Net.{World}
use netmon_plugins.Prelude.Text.{Bytes, codes}
use netmon_plugins.Prelude.{Bool, true, false, ◌&&◌, ◌++◌, ◌≡◌, if◌then◌else◌, is_empty, not, ℤ}

-- RFC 3501: the server greets, and the login with its tag is completed. Without credentials there is no login.
abbrev pub imap_script : Bytes → Bytes → Script
imap_script user pass = demanded (lacks (codes "* OK")) (λ greeting.
    if not (is_empty user) && not (is_empty pass)
    then line (codes "A1 LOGIN " ++ (user ++ (codes " " ++ pass)))
        (demanded (lacks (codes "A1 OK")) (λ r. farewell (codes "A2 LOGOUT") (λ _. true)))
    else over true)

converse-Conforms :
    (timeout : ℤ) (user pass : Bytes)
    → Conforms timeout (converse timeout user pass) 3 (imap_script user pass)
unfolding converse
converse-Conforms timeout user pass = demand-Conforms timeout (lacks (codes "* OK")) (λ g.
    if-Conforms timeout (not (is_empty user) && not (is_empty pass))
      (say-Conforms timeout _ (
        demand-Conforms timeout (lacks (codes "A1 OK"))
          (λ r. part_with-Conforms timeout (codes "A2 LOGOUT") (λ _. true) 0)))
      (close_with-Conforms timeout true 2))

-- Where a host is given: the messages of every run are those of the IMAP script of the options, and the
-- result is the report of its outcome.
pub imap_check-IsConversation :
    (w : World) (built_with_ssl : Bool) (c : Config)
    → is_empty c.hostname ≡ false
    → IsConversation w
        (check built_with_ssl c)
        (report built_with_ssl c)
        (imap_script c.username c.password)
unfolding check check_imap effective
imap_check-IsConversation w built_with_ssl c given =
    check_plays c.timeout_seconds c.hostname _ _ (report built_with_ssl c)
      (converse-Conforms c.timeout_seconds c.username c.password) w given

-- In every run the connection is given back, and there are at most three waits, each as long as the
-- options say.
pub imap_check-IsTidy :
    (w : World) (built_with_ssl : Bool) (c : Config)
    → IsTidy w c.timeout_seconds 3 (check built_with_ssl c)
unfolding check check_imap effective
imap_check-IsTidy w built_with_ssl c =
    check-IsTidy c.timeout_seconds c.hostname _ _ (report built_with_ssl c)
      (converse-Conforms c.timeout_seconds c.username c.password) w

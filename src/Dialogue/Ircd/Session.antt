-- ===== src/Dialogue/Ircd/Session.antt =====
-- The conversation of plugins/ircd/check_ircd.cpp against the protocol, and its use of the connection.
use netmon_plugins.Dialogue.Ircd.{Config, check, check_ircd, converse, report, is_registered}
use netmon_plugins.Dialogue.Conforms.{
  Conforms, demand-Conforms, say-Conforms, part_with-Conforms, check-IsTidy, check_plays, IsTidy,
}
use netmon_plugins.Dialogue.Script.{Script, line, reply, demanded, farewell}
use netmon_plugins.Dialogue.Script.Playing.{IsConversation}
use netmon_plugins.Net.{World}
use netmon_plugins.Prelude.Text.{Bytes, codes}
use netmon_plugins.Prelude.{false, ◌++◌, ◌≡◌, is_empty, ℤ}

-- RFC 2812: the client registers with a nickname and a user, and the reply to it gives the result.
abbrev pub ircd_script : Bytes → Script
ircd_script nick = demanded is_empty (λ greeting. line (codes "NICK " ++ nick) (
    line (codes "USER " ++ (nick ++ codes " 0 * :Monitoring Bot"))
      (reply (λ response. farewell (codes "QUIT") (λ _. is_registered response)))))

converse-Conforms :
    (timeout : ℤ) (nick : Bytes) → Conforms timeout (converse timeout nick) 3 (ircd_script nick)
unfolding converse
converse-Conforms timeout nick = demand-Conforms timeout is_empty (λ g. say-Conforms timeout _ (
    say-Conforms timeout _ (
      demand-Conforms timeout (λ _. false)
        (λ r. part_with-Conforms timeout (codes "QUIT") (λ _. is_registered r) 0))))

-- Where a host is given: the messages of every run are those of the IRC script of the options, and the
-- result is the report of its outcome.
pub ircd_check-IsConversation :
    (w : World) (c : Config)
    → is_empty c.hostname ≡ false
    → IsConversation w (check c) (report c) (ircd_script c.nickname)
unfolding check check_ircd
ircd_check-IsConversation w c given =
    check_plays c.timeout_seconds c.hostname _ _ (report c)
      (converse-Conforms c.timeout_seconds c.nickname) w given

-- In every run the connection is given back, and there are at most three waits, each as long as the
-- options say.
pub ircd_check-IsTidy : (w : World) (c : Config) → IsTidy w c.timeout_seconds 3 (check c)
unfolding check check_ircd
ircd_check-IsTidy w c =
    check-IsTidy c.timeout_seconds c.hostname _ _ (report c)
      (converse-Conforms c.timeout_seconds c.nickname) w

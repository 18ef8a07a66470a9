-- ===== src/Dialogue/Telnet/Session.antt =====
-- The conversation of plugins/telnet/check_telnet.cpp, and its use of the connection.
use netmon_plugins.Dialogue.Telnet.{Config, check, check_telnet, converse, report, is_expected}
use netmon_plugins.Dialogue.Conforms.{
  Conforms, close_with-Conforms, if-Conforms, demand-Conforms, part_with-Conforms, check-IsTidy,
  check_plays, IsTidy,
}
use netmon_plugins.Dialogue.Script.{Script, over, reply, farewell}
use netmon_plugins.Dialogue.Script.Playing.{IsConversation}
use netmon_plugins.Net.{World}
use netmon_plugins.Prelude.Text.{Bytes}
use netmon_plugins.Prelude.{false, ◌≡◌, if◌then◌else◌, is_empty, not, ℤ}

-- The expected text stands in the reply to the line that is sent, or else in what the server says first.
abbrev pub telnet_script : Bytes → Bytes → Script
telnet_script sent expect = reply (λ first.
    if not (is_empty sent)
    then farewell sent (is_expected expect)
    else over (is_expected expect first))

converse-Conforms :
    (timeout : ℤ) (sent expect : Bytes)
    → Conforms timeout (converse timeout sent expect) 2 (telnet_script sent expect)
unfolding converse
converse-Conforms timeout sent expect =
    demand-Conforms timeout (λ _. false)
      (λ r.
        if-Conforms timeout (not (is_empty sent))
          (part_with-Conforms timeout sent (is_expected expect) 0)
          (close_with-Conforms timeout (is_expected expect r) 1))

-- Where a host is given: the messages of every run are those of the Telnet script of the options, and the
-- result is the report of its outcome.
pub telnet_check-IsConversation :
    (w : World) (c : Config)
    → is_empty c.hostname ≡ false
    → IsConversation w (check c) (report c) (telnet_script c.send_string c.expect_string)
unfolding check check_telnet
telnet_check-IsConversation w c given =
    check_plays c.timeout_seconds c.hostname _ _ (report c)
      (converse-Conforms c.timeout_seconds c.send_string c.expect_string) w given

-- In every run the connection is given back, and there are at most two waits, each as long as the
-- options say.
pub telnet_check-IsTidy : (w : World) (c : Config) → IsTidy w c.timeout_seconds 2 (check c)
unfolding check check_telnet
telnet_check-IsTidy w c =
    check-IsTidy c.timeout_seconds c.hostname _ _ (report c)
      (converse-Conforms c.timeout_seconds c.send_string c.expect_string) w

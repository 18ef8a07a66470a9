-- ===== src/Dialogue/Nntp/Session.antt =====
-- The conversation of plugins/nntp/check_nntp.cpp against the protocol, and its use of the connection.
use netmon_plugins.Dialogue.Nntp.{Config, check, check_nntp, converse, report}
use netmon_plugins.Dialogue.Common.{refuses}
use netmon_plugins.Dialogue.Conforms.{
  Conforms, if-Conforms, demand-Conforms, say-Conforms, part_with-Conforms, check-IsTidy,
  check_plays, IsTidy,
}
use netmon_plugins.Dialogue.Script.{Script, line, demanded, farewell}
use netmon_plugins.Dialogue.Script.Playing.{IsConversation}
use netmon_plugins.Net.{World}
use netmon_plugins.Prelude.Text.{Bytes, codes}
use netmon_plugins.Prelude.{
  true, false, ◌||◌, ◌&&◌, ◌==◌, ◌++◌, ◌≡◌, if◌then◌else◌, is_empty, not, ℤ,
}

-- RFC 3977 and RFC 4643: the server greets (2xx or 4xx), wants a password for the user (3xx) and accepts it (2xx).
-- Without credentials there is no login.
abbrev pub nntp_script : Bytes → Bytes → Script
nntp_script user pass = demanded (refuses (λ c. c == b'2' || c == b'4')) (λ greeting.
    if not (is_empty user) && not (is_empty pass)
    then line (codes "AUTHINFO USER " ++ user) (
        demanded (refuses (λ c. c == b'3')) (λ r.
          line (codes "AUTHINFO PASS " ++ pass)
            (demanded (refuses (λ c. c == b'2')) (λ r'. farewell (codes "QUIT") (λ _. true)))))
    else farewell (codes "QUIT") (λ _. true))

converse-Conforms :
    (timeout : ℤ) (user pass : Bytes)
    → Conforms timeout (converse timeout user pass) 4 (nntp_script user pass)
unfolding converse
converse-Conforms timeout user pass =
    demand-Conforms timeout (refuses (λ c. c == b'2' || c == b'4')) (λ g.
      if-Conforms timeout (not (is_empty user) && not (is_empty pass))
        (say-Conforms timeout _ (
          demand-Conforms timeout (refuses (λ c. c == b'3')) (λ r. say-Conforms timeout _ (
            demand-Conforms timeout (refuses (λ c. c == b'2'))
              (λ r'. part_with-Conforms timeout (codes "QUIT") (λ _. true) 0)))))
        (part_with-Conforms timeout (codes "QUIT") (λ _. true) 2))

-- Where a host is given: the messages of every run are those of the NNTP script of the options, and the
-- result is the report of its outcome.
pub nntp_check-IsConversation :
    (w : World) (c : Config)
    → is_empty c.hostname ≡ false
    → IsConversation w (check c) (report c) (nntp_script c.username c.password)
unfolding check check_nntp
nntp_check-IsConversation w c given =
    check_plays c.timeout_seconds c.hostname _ _ (report c)
      (converse-Conforms c.timeout_seconds c.username c.password) w given

-- In every run the connection is given back, and there are at most four waits, each as long as the
-- options say.
pub nntp_check-IsTidy : (w : World) (c : Config) → IsTidy w c.timeout_seconds 4 (check c)
unfolding check check_nntp
nntp_check-IsTidy w c =
    check-IsTidy c.timeout_seconds c.hostname _ _ (report c)
      (converse-Conforms c.timeout_seconds c.username c.password) w

-- ===== src/Dialogue/Ftp/Session.antt =====
-- The conversation of plugins/ftp/check_ftp.cpp against the protocol, and its use of the connection.
use netmon_plugins.Dialogue.Ftp.{
  Config, check, check_ftp, converse, report, wants_password, login_user, login_pass,
}
use netmon_plugins.Dialogue.Common.{refuses}
use netmon_plugins.Dialogue.Conforms.{
  Conforms, if-Conforms, demand-Conforms, say-Conforms, part_with-Conforms, check-IsTidy,
  check_plays, IsTidy,
}
use netmon_plugins.Dialogue.Script.{Script, line, demanded, farewell}
use netmon_plugins.Dialogue.Script.Playing.{IsConversation}
use netmon_plugins.Net.{World}
use netmon_plugins.Prelude.Text.{Bytes, codes, strip_prefix}
use netmon_plugins.Prelude.{
  not, ◌&&◌, none, some, [], ◌∷◌, refl, subst, arith, Bool, true, false, ◌||◌, ◌==◌, ◌++◌, ◌≡◌,
  if◌then◌else◌, is_empty, ℤ,
}

-- The server is ready, the user is named, and the password is given where it is wanted. The first two tests are those
-- for the replies that end the conversation.
abbrev pub ftp_dialogue : (Bytes → Bool) → (Bytes → Bool) → (Bytes → Bool) → Bytes → Bytes → Script
ftp_dialogue incomplete negative pending user pass = demanded incomplete (λ welcome.
    line (codes "USER " ++ user) (
      demanded negative (λ response.
        if pending response
        then line (codes "PASS " ++ pass)
            (demanded incomplete (λ r. farewell (codes "QUIT") (λ _. true)))
        else farewell (codes "QUIT") (λ _. true))))

-- The first digit of a reply code of RFC 959: 2 is a completed action, 3 one that needs another command.
abbrev pub has_digit : Bytes → Bytes → Bool
has_digit digit reply = elim (strip_prefix digit reply) [ some r ↦ true | none ↦ false ]

abbrev pub is_incomplete : Bytes → Bool
is_incomplete reply = not (has_digit (codes "2") reply)

abbrev pub is_negative : Bytes → Bool
is_negative reply = not (has_digit (codes "2") reply) && not (has_digit (codes "3") reply)

-- The user of the options, or else the anonymous one, whose password is a text with an `@`.
abbrev pub ftp_script : Config → Script
ftp_script c =
    ftp_dialogue is_incomplete is_negative (has_digit (codes "3"))
      (if c.anonymous || is_empty c.username then codes "anonymous" else c.username)
      (if c.anonymous then codes "anonymous@" else c.password)

incomplete-refuses : (reply : Bytes) → refuses (λ c. c == b'2') reply ≡ is_incomplete reply
unfolding strip_prefix
incomplete-refuses [] = refl
incomplete-refuses (c ∷ reply) = ground arith

negative-refuses : (reply : Bytes) → refuses (λ c. c == b'3' || c == b'2') reply ≡ is_negative reply
unfolding strip_prefix
negative-refuses [] = refl
negative-refuses (c ∷ reply) = ground arith

pending-wants : (reply : Bytes) → wants_password reply ≡ has_digit (codes "3") reply
unfolding strip_prefix
pending-wants [] = refl
pending-wants (c ∷ reply) = ground arith

user-login :
    (anon : Bool) (user : Bytes)
    → login_user anon user ≡ (if anon || is_empty user then codes "anonymous" else user)
unfolding login_user
user-login true user = refl
user-login false [] = refl
user-login false (c ∷ user) = refl

pass-login :
    (anon : Bool) (pass : Bytes)
    → login_pass anon pass ≡ (if anon then codes "anonymous@" else pass)
unfolding login_pass
pass-login true pass = refl
pass-login false [] = refl
pass-login false (c ∷ pass) = refl

-- The conversation of the options, with the tests and the texts of the plugin.
abbrev dialogue_of : Config → Script
dialogue_of c =
    ftp_dialogue (refuses (λ b. b == b'2')) (refuses (λ b. b == b'3' || b == b'2')) wants_password
      (login_user c.anonymous c.username) (login_pass c.anonymous c.password)

dialogue_of-ftp_script : (c : Config) → dialogue_of c ≡ ftp_script c
dialogue_of-ftp_script c = λ i.
    ftp_dialogue (λ reply. incomplete-refuses reply i) (λ reply. negative-refuses reply i)
      (λ reply. pending-wants reply i) (user-login c.anonymous c.username i)
      (pass-login c.anonymous c.password i)

converse-Conforms :
    (timeout : ℤ) (user pass : Bytes) (anon : Bool)
    → Conforms timeout (converse timeout user pass anon) 4 (
        ftp_dialogue
          (refuses (λ c. c == b'2'))
          (refuses (λ c. c == b'3' || c == b'2'))
          wants_password
          (login_user anon user)
          (login_pass anon pass))
unfolding converse
converse-Conforms timeout user pass anon = demand-Conforms timeout (refuses (λ c. c == b'2')) (λ g.
    say-Conforms timeout _ (
      demand-Conforms timeout (refuses (λ c. c == b'3' || c == b'2')) (λ response.
        if-Conforms timeout (wants_password response)
          (say-Conforms timeout _ (
            demand-Conforms timeout (refuses (λ c. c == b'2'))
              (λ r. part_with-Conforms timeout (codes "QUIT") (λ _. true) 0)))
          (part_with-Conforms timeout (codes "QUIT") (λ _. true) 1))))

-- Where a host is given: the messages of every run are those of the FTP script of the options, in which a reply that
-- begins with 3 asks for the password and one that begins with 2 completes a step, and the result is the report of
-- its outcome.
pub ftp_check-IsConversation :
    (w : World) (c : Config)
    → is_empty c.hostname ≡ false
    → IsConversation w (check c) (report c) (ftp_script c)
unfolding check check_ftp
ftp_check-IsConversation w c given =
    subst (λ s. IsConversation w (check c) (report c) s) (dialogue_of-ftp_script c)
      (check_plays c.timeout_seconds c.hostname _ _ (report c)
        (converse-Conforms c.timeout_seconds c.username c.password c.anonymous) w given)

-- In every run the connection is given back, and there are at most four waits, each as long as the
-- options say.
pub ftp_check-IsTidy : (w : World) (c : Config) → IsTidy w c.timeout_seconds 4 (check c)
unfolding check check_ftp
ftp_check-IsTidy w c =
    check-IsTidy c.timeout_seconds c.hostname _ _ (report c)
      (converse-Conforms c.timeout_seconds c.username c.password c.anonymous) w

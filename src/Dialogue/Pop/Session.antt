-- ===== src/Dialogue/Pop/Session.antt =====
-- The conversation of plugins/pop/check_pop.cpp against the protocol, and its use of the connection.
use netmon_plugins.Dialogue.Conforms.{
  Conforms, close_with-Conforms, if-Conforms, demand-Conforms, say-Conforms, part_with-Conforms,
  check-IsTidy, check_plays, IsTidy,
}
use netmon_plugins.Dialogue.Pop.{Config, check, check_pop, effective, converse, report, is_refusal}
use netmon_plugins.Dialogue.Script.{Script, over, line, demanded, farewell}
use netmon_plugins.Dialogue.Script.Playing.{IsConversation}
use netmon_plugins.Dialogue.Common.{service_report}
use netmon_plugins.Dialogue.Prevails.{
  IsKind, if-Prevails, close_with-Prevails, connected_to-Prevails, demand-Prevails, say-Prevails,
  part_with-Prevails, reporting-Prevails,
}
use netmon_plugins.Plugin.{ok}
use netmon_plugins.Net.{World, run}
use netmon_plugins.Prelude.Text.{Bytes, codes, contains, split_at_first, strip_prefix}
use netmon_plugins.Prelude.{
  Bool, true, false, [], ◌∷◌, refl, sym, subst, ap, ◌++◌, ◌≡◌, if◌then◌else◌, is_empty, not, ℤ,
}

-- The server greets, a user is named, and the password is given, and each reply decides whether to go on. A part
-- without credentials is left out.
abbrev pub pop_dialogue : (Bytes → Bool) → Bytes → Bytes → Script
pop_dialogue negative user pass = demanded negative (λ greeting.
    if not (is_empty user)
    then line (codes "USER " ++ user) (
        demanded negative (λ r.
          if not (is_empty pass)
          then line (codes "PASS " ++ pass)
              (demanded negative (λ r'. farewell (codes "QUIT") (λ _. true)))
          else over true))
    else over true)

-- A reply without the positive status indicator of RFC 1939.
abbrev pub lacks_ok : Bytes → Bool
lacks_ok reply = not (contains (codes "+OK") reply)

abbrev pub pop_script : Bytes → Bytes → Script
pop_script = pop_dialogue lacks_ok

is_refusal-lacks_ok : (reply : Bytes) → is_refusal reply ≡ lacks_ok reply
unfolding contains split_at_first strip_prefix
is_refusal-lacks_ok [] = refl
is_refusal-lacks_ok (c ∷ reply) = refl

refusals : is_refusal ≡ lacks_ok
refusals = λ i reply. is_refusal-lacks_ok reply i

converse-Conforms :
    (timeout : ℤ) (user pass : Bytes)
    → Conforms timeout (converse timeout user pass) 4 (pop_dialogue is_refusal user pass)
unfolding converse
converse-Conforms timeout user pass = demand-Conforms timeout is_refusal (λ g.
    if-Conforms timeout (not (is_empty user))
      (say-Conforms timeout _ (
        demand-Conforms timeout is_refusal (λ r.
          if-Conforms timeout (not (is_empty pass))
            (say-Conforms timeout _ (
              demand-Conforms timeout is_refusal
                (λ r'. part_with-Conforms timeout (codes "QUIT") (λ _. true) 0)))
            (close_with-Conforms timeout true 2))))
      (close_with-Conforms timeout true 3))

-- Where a host is given: the messages of every run are those of the POP3 script of the user and the password, which
-- goes on only behind a reply with `+OK` somewhere in it, and the result is the report of its outcome.
pub pop_check-IsConversation :
    (w : World) (built_with_ssl : Bool) (c : Config)
    → is_empty c.hostname ≡ false
    → IsConversation w
        (check built_with_ssl c)
        (report built_with_ssl c)
        (pop_script c.username c.password)
unfolding check check_pop effective
pop_check-IsConversation w built_with_ssl c given =
    subst
      (λ negative.
        IsConversation w (check built_with_ssl c) (report built_with_ssl c)
          (pop_dialogue negative c.username c.password))
      refusals
      (check_plays c.timeout_seconds c.hostname _ _ (report built_with_ssl c)
        (converse-Conforms c.timeout_seconds c.username c.password) w given)

-- In every run the connection is given back, and there are at most four waits, each as long as the
-- options say.
pub pop_check-IsTidy :
    (w : World) (built_with_ssl : Bool) (c : Config)
    → IsTidy w c.timeout_seconds 4 (check built_with_ssl c)
unfolding check check_pop effective
pop_check-IsTidy w built_with_ssl c =
    check-IsTidy c.timeout_seconds c.hostname _ _ (report built_with_ssl c)
      (converse-Conforms c.timeout_seconds c.username c.password) w

-- Where a host is given, every call succeeds, and every reply has the text `+OK` in it, the result is OK.
pub pop_check-prevails :
    (w : World) (built_with_ssl : Bool) (c : Config)
    → is_empty c.hostname ≡ false
    → IsKind lacks_ok w
    → (run w [] (check built_with_ssl c)).1.1.code ≡ ok
unfolding check check_pop converse effective report service_report
pop_check-prevails w built_with_ssl c given all_kind =
    let kind = subst (λ negative. IsKind negative w) (sym refusals) all_kind in
    ap (λ r. r.1.code)
      (reporting-Prevails is_refusal c.hostname _ (report built_with_ssl c) w given kind (
        connected_to-Prevails is_refusal _ _ _ (
          demand-Prevails is_refusal c.timeout_seconds (λ g.
            if-Prevails is_refusal (not (is_empty c.username))
              (say-Prevails is_refusal _ (
                demand-Prevails is_refusal c.timeout_seconds (λ r.
                  if-Prevails is_refusal (not (is_empty c.password))
                    (say-Prevails is_refusal _ (
                      demand-Prevails is_refusal c.timeout_seconds
                        (λ r'. part_with-Prevails is_refusal c.timeout_seconds (codes "QUIT"))))
                    (close_with-Prevails is_refusal))))
              (close_with-Prevails is_refusal)))))

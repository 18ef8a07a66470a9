-- ===== src/Dialogue/Jabber.antt =====
-- plugins/jabber/check_jabber.cpp: the opening of an XMPP stream, and the verdict. The options for a user and a
-- password are stored and never read.
use netmon_plugins.Cpp.Result.{Result}
use netmon_plugins.Dialogue.Common.{no_host}
use netmon_plugins.Net.{Io, finish, call, recv, close, send, ◌>>=◌, ◌>>◌}
use netmon_plugins.Net.Tcp.{act, connect_tcp, text_of}
use netmon_plugins.Plugin.{ok, warning, critical, PluginResult, plain_result}
use netmon_plugins.Cpp.Decimal.{to_string}
use netmon_plugins.Plugin.Args.{
  Action, show_help, update, with_text, with_number, Parsed, is_option, help_option, parse_loop,
}
use netmon_plugins.Prelude.Text.{Bytes, codes, contains, concat}
use netmon_plugins.Prelude.{Bool, ◌&&◌, ◌||◌, not, if◌then◌else◌, List, [], ◌∷◌, is_empty, ℤ, pos}

-- The fields of `JabberPlugin`.
pub record Config : Type 0 where
  pub hostname : Bytes
  pub port : ℤ
  pub timeout_seconds : ℤ
  pub username : Bytes
  pub password : Bytes

abbrev pub default_config : Config
default_config = record {
  hostname = [];
  port = pos 5222;
  timeout_seconds = pos 10;
  username = [];
  password = [];
}

-- The body of the loop in `parseArguments`.
unfoldable pub parse_argument : Config → Bytes → Action Config
parse_argument c a =
    if help_option a
    then show_help
    else if is_option (codes "-H") (codes "--hostname") a
    then with_text (λ v. record c { hostname = v })
    else if is_option (codes "-p") (codes "--port") a
    then with_number (λ n. record c { port = n })
    else if is_option (codes "-u") (codes "--username") a
    then with_text (λ v. record c { username = v })
    else if is_option (codes "-P") (codes "--password") a
    then with_text (λ v. record c { password = v })
    else if is_option (codes "-t") (codes "--timeout") a
    then with_number (λ n. record c { timeout_seconds = n })
    else update c

unfoldable pub parse_arguments : List Bytes → Result (Parsed Config)
parse_arguments = parse_loop parse_argument default_config

unfoldable pub receive_xmpp : Io Bytes
receive_xmpp = recv >>= λ r. finish (text_of r)

unfoldable pub send_xmpp : Bytes → Io Bool
send_xmpp text = call (send text)

unfoldable pub stream_header : Bytes → Bytes
stream_header host = concat (
    codes "<?xml version='1.0'?>"
    ∷ (10 ∷ [])
    ∷ codes "<stream:stream to='"
    ∷ host
    ∷ codes "' xmlns='jabber:client' xmlns:stream='http://etherx.jabber.org/streams' version='1.0'>"
    ∷ (10 ∷ [])
    ∷ [])

-- The verdict on the reply to the header.
unfoldable pub report : Config → Bytes → PluginResult
report c response =
    if contains (codes "<stream:features") response
      || contains (codes "<features") response
      || contains (codes "xmlns") response
    then plain_result ok (
        concat (
          codes "Jabber OK - XMPP service is responding on "
          ∷ c.hostname
          ∷ codes ":"
          ∷ to_string c.port
          ∷ []))
    else plain_result warning (codes "Jabber WARNING - Connected but response format unexpected")

-- No step throws an exception, so the handler of `check` is not reached.
unfoldable pub check : Config → Io PluginResult
check c =
    if is_empty c.hostname
    then finish no_host
    else connect_tcp c.hostname c.port c.timeout_seconds >>= λ connected.
        if not connected
        then finish (
            plain_result critical (
              concat (
                codes "Jabber CRITICAL - Cannot connect to "
                ∷ c.hostname
                ∷ codes ":"
                ∷ to_string c.port
                ∷ [])))
        else receive_xmpp >>= λ opening.
            if not (contains (codes "<?xml") opening)
              && not (contains (codes "<stream:stream") opening)
            then act close
              >> finish
                  (plain_result critical (codes "Jabber CRITICAL - Invalid XMPP stream response"))
            else send_xmpp (stream_header c.hostname) >>= λ sent.
                if not sent
                then act close
                  >> finish
                      (plain_result critical (codes "Jabber CRITICAL - Cannot send stream header"))
                else receive_xmpp >>= λ response.
                    send_xmpp (codes "</stream:stream>") >> act close >> finish (report c response)

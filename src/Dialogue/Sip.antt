-- ===== src/Dialogue/Sip.antt =====
-- plugins/sip/check_sip.cpp: an OPTIONS request in a datagram, and the verdict on the answer.
use netmon_plugins.Cpp.Result.{Result}
use netmon_plugins.Dialogue.Common.{no_host}
use netmon_plugins.Net.{
  Io, finish, call, recv, getaddrinfo, socket, freeaddrinfo, close, sendto, ◌>>=◌, ◌>>◌,
}
use netmon_plugins.Net.Tcp.{act, set_timeouts, text_of}
use netmon_plugins.Plugin.{ok, warning, critical, PluginResult, plain_result}
use netmon_plugins.HttpApi.Response.{crlf}
use netmon_plugins.Cpp.Decimal.{to_string}
use netmon_plugins.Plugin.Args.{
  Action, show_help, update, with_text, with_number, Parsed, is_option, help_option, parse_loop,
}
use netmon_plugins.Prelude.Text.{Bytes, codes, contains, concat}
use netmon_plugins.Prelude.{
  Bool, true, false, ◌||◌, not, if◌then◌else◌, List, [], ◌∷◌, is_empty, ℤ, pos,
}

-- The fields of `SipPlugin`.
pub record Config : Type 0 where
  pub hostname : Bytes
  pub port : ℤ
  pub timeout_seconds : ℤ
  pub from_user : Bytes
  pub to_user : Bytes

abbrev pub default_config : Config
default_config = record {
  hostname = [];
  port = pos 5060;
  timeout_seconds = pos 10;
  from_user = codes "monitor";
  to_user = codes "monitor";
}

-- The body of the loop in `parseArguments`.
unfoldable pub parse_argument : Config → Bytes → Action Config
parse_argument c a =
    if help_option a
    then show_help
    else if is_option (codes "-H") (codes "--hostname") a
    then with_text (λ v. record c { hostname = v })
    else if is_option (codes "-p") (codes "--port") a
    then with_number (λ n. record c { port = n })
    else if is_option (codes "-f") (codes "--from") a
    then with_text (λ v. record c { from_user = v })
    else if is_option (codes "-t") (codes "--to") a
    then with_text (λ v. record c { to_user = v })
    else if is_option (codes "-T") (codes "--timeout") a
    then with_number (λ n. record c { timeout_seconds = n })
    else update c

unfoldable pub parse_arguments : List Bytes → Result (Parsed Config)
parse_arguments = parse_loop parse_argument default_config

unfoldable pub connect_to_sip : Bytes → ℤ → ℤ → Io Bool
connect_to_sip host port timeout = call (getaddrinfo host port) >>= λ resolved.
    if not resolved
    then finish false
    else call socket >>= λ opened.
        if not opened
        then act freeaddrinfo >> finish false
        else set_timeouts timeout >> act freeaddrinfo >> finish true

unfoldable pub options_request : Bytes → Bytes → Bytes → Bytes
options_request host sender receiver = concat (
    codes "OPTIONS sip:"
    ∷ receiver
    ∷ codes "@"
    ∷ host
    ∷ codes " SIP/2.0"
    ∷ crlf
    ∷ codes "Via: SIP/2.0/UDP "
    ∷ host
    ∷ codes ";branch=z9hG4bK776asdhds"
    ∷ crlf
    ∷ codes "From: <sip:"
    ∷ sender
    ∷ codes "@"
    ∷ host
    ∷ codes ">;tag=1928301774"
    ∷ crlf
    ∷ codes "To: <sip:"
    ∷ receiver
    ∷ codes "@"
    ∷ host
    ∷ codes ">"
    ∷ crlf
    ∷ codes "Call-ID: test@"
    ∷ host
    ∷ crlf
    ∷ codes "CSeq: 1 OPTIONS"
    ∷ crlf
    ∷ codes "Contact: <sip:"
    ∷ sender
    ∷ codes "@"
    ∷ host
    ∷ codes ">"
    ∷ crlf
    ∷ codes "Content-Length: 0"
    ∷ crlf
    ∷ crlf
    ∷ [])

-- The name is resolved a second time, for `sendto`.
unfoldable pub send_sip_options : Bytes → ℤ → Bytes → Bytes → Io Bytes
send_sip_options host port sender receiver = call (getaddrinfo host port) >>= λ resolved.
    if not resolved
    then finish []
    else act (sendto (options_request host sender receiver)) >> act freeaddrinfo >> recv >>= λ r.
        finish (text_of r)

abbrev pub at_host : Config → Bytes → Bytes
at_host c text = concat (text ∷ c.hostname ∷ codes ":" ∷ to_string c.port ∷ [])

unfoldable pub report : Config → Bytes → PluginResult
report c response =
    if is_empty response
    then plain_result critical (at_host c (codes "SIP CRITICAL - No response from "))
    else if contains (codes "SIP/2.0 200") response
        || contains (codes "SIP/2.0 405") response
        || contains (codes "SIP/2.0 501") response
    then plain_result ok (at_host c (codes "SIP OK - Server is responding on "))
    else if contains (codes "SIP/2.0") response
    then plain_result warning
        (at_host c (codes "SIP WARNING - Server responded with non-OK status on "))
    else plain_result critical (at_host c (codes "SIP CRITICAL - Invalid response from "))

-- No step throws an exception, so the handler of `check` is not reached.
unfoldable pub check : Config → Io PluginResult
check c =
    if is_empty c.hostname
    then finish no_host
    else connect_to_sip c.hostname c.port c.timeout_seconds >>= λ connected.
        if not connected
        then finish
            (plain_result critical (at_host c (codes "SIP CRITICAL - Cannot create socket for ")))
        else send_sip_options c.hostname c.port c.from_user c.to_user >>= λ response.
            act close >> finish (report c response)

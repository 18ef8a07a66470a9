-- ===== src/Dialogue/Ftp.antt =====
-- plugins/ftp/check_ftp.cpp: the login at an FTP server, and the verdict.
pub mod Session
use netmon_plugins.Cpp.Result.{Result}
use netmon_plugins.Dialogue.Common.{accepts_connections, no_host, refuses}
use netmon_plugins.Dialogue.Talk.{connected_to, demand, say, quit_with, reporting}
use netmon_plugins.Net.{Io}
use netmon_plugins.Plugin.{PluginResult}
use netmon_plugins.Plugin.Args.{
  Action, show_help, update, with_text, with_number, Parsed, is_option, help_option, parse_loop,
}
use netmon_plugins.Prelude.Text.{Bytes, codes}
use netmon_plugins.Prelude.{
  Bool, true, false, ◌||◌, ◌==◌, if◌then◌else◌, List, [], ◌∷◌, ◌++◌, is_empty, ℤ, pos,
}

-- The fields of `FtpPlugin`.
pub record Config : Type 0 where
  pub hostname : Bytes
  pub port : ℤ
  pub timeout_seconds : ℤ
  pub username : Bytes
  pub password : Bytes
  pub anonymous : Bool

abbrev pub default_config : Config
default_config = record {
  hostname = [];
  port = pos 21;
  timeout_seconds = pos 10;
  username = [];
  password = [];
  anonymous = false;
}

-- The body of the loop in `parseArguments`.
unfoldable pub parse_argument : Config → Bytes → Action Config
parse_argument c a =
    if help_option a
    then show_help
    else if is_option (codes "-H") (codes "--hostname") a
    then with_text (λ v. record c { hostname = v })
    else if is_option (codes "-p") (codes "--port") a
    then with_number (λ n. record c { port = n })
    else if is_option (codes "-t") (codes "--timeout") a
    then with_number (λ n. record c { timeout_seconds = n })
    else if is_option (codes "-u") (codes "--username") a
    then with_text (λ v. record c { username = v })
    else if is_option (codes "-P") (codes "--password") a
    then with_text (λ v. record c { password = v })
    else if is_option (codes "-a") (codes "--anonymous") a
    then update (record c { anonymous = true })
    else update c

unfoldable pub parse_arguments : List Bytes → Result (Parsed Config)
parse_arguments = parse_loop parse_argument default_config

-- `response[0] == '3'`, of a reply that is not empty
abbrev pub wants_password : Bytes → Bool
wants_password [] = false
wants_password (c ∷ s) = c == b'3'

unfoldable pub login_user : Bool → Bytes → Bytes
login_user anon user =
    if anon then codes "anonymous" else if is_empty user then codes "anonymous" else user

unfoldable pub login_pass : Bool → Bytes → Bytes
login_pass anon pass = if anon then codes "anonymous@" else if is_empty pass then [] else pass

-- What is said and read behind the connection.
unfoldable pub converse : ℤ → Bytes → Bytes → Bool → Io Bool
converse timeout user pass anon = demand (refuses (λ c. c == b'2')) timeout (λ welcome.
    say (codes "USER " ++ login_user anon user) (
      demand (refuses (λ c. c == b'3' || c == b'2')) timeout (λ response.
        if wants_password response
        then say (codes "PASS " ++ login_pass anon pass)
            (demand (refuses (λ c. c == b'2')) timeout (λ r. quit_with timeout true))
        else quit_with timeout true)))

unfoldable pub check_ftp : Bytes → ℤ → ℤ → Bytes → Bytes → Bool → Io Bool
check_ftp host port timeout user pass anon =
    connected_to host port timeout (converse timeout user pass anon)

unfoldable pub report : Config → Bool → PluginResult
report c available = accepts_connections (codes "FTP") c.hostname c.port available

-- No step throws an exception, so the handler of `check` is not reached.
unfoldable pub check : Config → Io PluginResult
check c =
    reporting c.hostname no_host
      (check_ftp c.hostname c.port c.timeout_seconds c.username c.password c.anonymous) (report c)

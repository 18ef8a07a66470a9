-- ===== src/Dialogue/Pop.antt =====
-- plugins/pop/check_pop.cpp: the conversation with a POP3 server, and the verdict. `built_with_ssl` says whether
-- OpenSSL is compiled in.
pub mod Session
use netmon_plugins.Cpp.Result.{Result}
use netmon_plugins.Dependency.{check_openssl_available, dependency_warning}
use netmon_plugins.Dialogue.Common.{accepts_connections, no_host}
use netmon_plugins.Dialogue.Talk.{connected_to, demand, say, quit_with, reporting}
use netmon_plugins.Net.{Io}
use netmon_plugins.Net.Tcp.{close_with}
use netmon_plugins.Plugin.{PluginResult}
use netmon_plugins.Plugin.Args.{
  Action, show_help, update, with_text, with_number, Parsed, is_option, help_option, parse_loop,
}
use netmon_plugins.Prelude.Text.{Bytes, codes, contains}
use netmon_plugins.Prelude.{
  Bool, true, false, ◌&&◌, ◌||◌, not, if◌then◌else◌, List, [], ◌++◌, is_empty, ℤ, pos, eqb_ℤ,
}

-- The fields of `PopPlugin`.
pub record Config : Type 0 where
  pub hostname : Bytes
  pub port : ℤ
  pub timeout_seconds : ℤ
  pub username : Bytes
  pub password : Bytes
  pub use_ssl : Bool

abbrev pub default_config : Config
default_config = record {
  hostname = [];
  port = pos 110;
  timeout_seconds = pos 10;
  username = [];
  password = [];
  use_ssl = false;
}

-- The body of the loop in `parseArguments`.
unfoldable pub parse_argument : Config → Bytes → Action Config
parse_argument c a =
    if help_option a
    then show_help
    else if is_option (codes "-H") (codes "--hostname") a
    then with_text (λ v. record c { hostname = v })
    else if is_option (codes "-p") (codes "--port") a
    then with_number (λ n. record c { port = n })
    else if is_option (codes "-t") (codes "--timeout") a
    then with_number (λ n. record c { timeout_seconds = n })
    else if is_option (codes "-u") (codes "--username") a
    then with_text (λ v. record c { username = v })
    else if is_option (codes "-P") (codes "--password") a
    then with_text (λ v. record c { password = v })
    else if is_option (codes "-S") (codes "--ssl") a
    then update
        (record c { use_ssl = true; port = if eqb_ℤ c.port (pos 110) then pos 995 else c.port })
    else update c

unfoldable pub parse_arguments : List Bytes → Result (Parsed Config)
parse_arguments = parse_loop parse_argument default_config

-- `response.empty() || response.find("+OK") == npos` is what makes the check fail.
abbrev pub is_refusal : Bytes → Bool
is_refusal response = is_empty response || not (contains (codes "+OK") response)

-- What is said and read behind the connection.
unfoldable pub converse : ℤ → Bytes → Bytes → Io Bool
converse timeout user pass = demand is_refusal timeout (λ greeting.
    if not (is_empty user)
    then say (codes "USER " ++ user) (
        demand is_refusal timeout (λ r.
          if not (is_empty pass)
          then say (codes "PASS " ++ pass)
              (demand is_refusal timeout (λ r'. quit_with timeout true))
          else close_with true))
    else close_with true)

unfoldable pub check_pop : Bytes → ℤ → ℤ → Bytes → Bytes → Io Bool
check_pop host port timeout user pass = connected_to host port timeout (converse timeout user pass)

-- POP3S is wanted and OpenSSL is not compiled in.
abbrev pub lacks_ssl : Bool → Config → Bool
lacks_ssl built_with_ssl c = c.use_ssl && not (check_openssl_available built_with_ssl)

-- Without OpenSSL, POP3S falls back to POP3.
unfoldable pub effective : Bool → Config → Config
effective built_with_ssl c = record c {
  use_ssl = if lacks_ssl built_with_ssl c then false else c.use_ssl;
  port = if lacks_ssl built_with_ssl c && eqb_ℤ c.port (pos 995) then pos 110 else c.port;
}

-- What goes to `std::cerr`.
unfoldable pub warned : Bool → Config → Bytes
warned built_with_ssl c =
    if lacks_ssl built_with_ssl c
    then dependency_warning (codes "check_pop") (codes "OpenSSL")
        (codes "POP3 connection only (POP3S not available)")
    else []

-- What goes to `std::cerr`, and the result.
unfoldable pub report : Bool → Config → Bool → Bytes × PluginResult
report built_with_ssl c available =
    let used = effective built_with_ssl c in
    (warned built_with_ssl c, accepts_connections (codes "POP3") used.hostname used.port available)

-- No step throws an exception, so the handler of `check` is not reached.
unfoldable pub check : Bool → Config → Io (Bytes × PluginResult)
check built_with_ssl c =
    let used = effective built_with_ssl c in
    reporting c.hostname ([], no_host)
      (check_pop used.hostname used.port used.timeout_seconds used.username used.password)
      (report built_with_ssl c)

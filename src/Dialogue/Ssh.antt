-- ===== src/Dialogue/Ssh.antt =====
-- plugins/ssh/check_ssh.cpp: the version line of an SSH server, and the verdict. The field `expectString` is never
-- read.
use netmon_plugins.Cpp.Result.{Result}
use netmon_plugins.Dialogue.Common.{service_report, no_host}
use netmon_plugins.Dialogue.Talk.{reporting}
use netmon_plugins.Net.{Io}
use netmon_plugins.Plugin.{PluginResult}
use netmon_plugins.Dialogue.Banner.{check_banner}
use netmon_plugins.Plugin.Args.{
  Action, show_help, update, with_text, with_number, Parsed, is_option, help_option, parse_loop,
}
use netmon_plugins.Prelude.Text.{Bytes, codes}
use netmon_plugins.Prelude.{Bool, if◌then◌else◌, List, [], ℤ, pos}

-- The fields of `SshPlugin`, but for `expectString`, which is never read.
pub record Config : Type 0 where
  pub hostname : Bytes
  pub port : ℤ
  pub timeout_seconds : ℤ

abbrev pub default_config : Config
default_config = record { hostname = []; port = pos 22; timeout_seconds = pos 10 }

-- The body of the loop in `parseArguments`.
unfoldable pub parse_argument : Config → Bytes → Action Config
parse_argument c a =
    if help_option a
    then show_help
    else if is_option (codes "-H") (codes "--hostname") a
    then with_text (λ v. record c { hostname = v })
    else if is_option (codes "-p") (codes "--port") a
    then with_number (λ n. record c { port = n })
    else if is_option (codes "-t") (codes "--timeout") a
    then with_number (λ n. record c { timeout_seconds = n })
    else update c

unfoldable pub parse_arguments : List Bytes → Result (Parsed Config)
parse_arguments = parse_loop parse_argument default_config

unfoldable pub check_ssh : ℤ → Bytes → ℤ → Io Bool
check_ssh timeout host port = check_banner host port timeout (codes "SSH")

unfoldable pub report : Config → Bool → PluginResult
report c available =
    service_report (codes "SSH") (codes " is accepting connections") (codes " is not responding")
      c.hostname c.port available

-- No step throws an exception, so the handler of `check` is not reached.
unfoldable pub check : Config → Io PluginResult
check c = reporting c.hostname no_host (check_ssh c.timeout_seconds c.hostname c.port) (report c)

-- ===== src/Dialogue/Smtp.antt =====
-- plugins/smtp/check_smtp.cpp: the greeting of a mail server, and the verdict.
use netmon_plugins.Cpp.Result.{Result}
use netmon_plugins.Dialogue.Common.{service_report, no_host}
use netmon_plugins.Dialogue.Talk.{reporting}
use netmon_plugins.Net.{Io}
use netmon_plugins.Plugin.{PluginResult}
use netmon_plugins.Dialogue.Banner.{check_banner}
use netmon_plugins.Plugin.Args.{
  Action, show_help, update, with_text, with_number, Parsed, is_option, help_option, parse_loop,
}
use netmon_plugins.Prelude.Text.{Bytes, codes}
use netmon_plugins.Prelude.{Bool, if◌then◌else◌, List, [], ℤ, pos}

-- The fields of `SmtpPlugin`.
pub record Config : Type 0 where
  pub hostname : Bytes
  pub port : ℤ
  pub timeout_seconds : ℤ
  pub expect_string : Bytes

abbrev pub default_config : Config
default_config = record {
  hostname = [];
  port = pos 25;
  timeout_seconds = pos 10;
  expect_string = codes "220";
}

-- The body of the loop in `parseArguments`.
unfoldable pub parse_argument : Config → Bytes → Action Config
parse_argument c a =
    if help_option a
    then show_help
    else if is_option (codes "-H") (codes "--hostname") a
    then with_text (λ v. record c { hostname = v })
    else if is_option (codes "-p") (codes "--port") a
    then with_number (λ n. record c { port = n })
    else if is_option (codes "-t") (codes "--timeout") a
    then with_number (λ n. record c { timeout_seconds = n })
    else if is_option (codes "-e") (codes "--expect") a
    then with_text (λ v. record c { expect_string = v })
    else update c

unfoldable pub parse_arguments : List Bytes → Result (Parsed Config)
parse_arguments = parse_loop parse_argument default_config

unfoldable pub check_smtp : ℤ → Bytes → Bytes → ℤ → Io Bool
check_smtp timeout expect host port = check_banner host port timeout expect

unfoldable pub report : Config → Bool → PluginResult
report c available =
    service_report (codes "SMTP") (codes " is accepting connections") (codes " is not responding")
      c.hostname c.port available

-- No step throws an exception, so the handler of `check` is not reached.
unfoldable pub check : Config → Io PluginResult
check c =
    reporting c.hostname no_host (check_smtp c.timeout_seconds c.expect_string c.hostname c.port)
      (report c)

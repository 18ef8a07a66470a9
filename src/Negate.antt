-- ===== src/Negate.antt =====
-- plugins/negate/check_negate.cpp: run a command and report the opposite of its exit code. `system` is what
-- `std::system` returns for a command line: a wait status, as an unsigned 32-bit pattern.
pub mod Laws
use netmon_plugins.Cpp.Decimal.{to_string_ℕ}
use netmon_plugins.Cpp.Result.{Result, returns}
use netmon_plugins.Plugin.{
  ExitCode, ok, warning, critical, unknown, exit_status, PluginResult, plain_result,
}
use netmon_plugins.Plugin.Args.{
  Action, show_help, update, with_value, Parsed, is_option, help_option, parse_loop,
}
use netmon_plugins.Prelude.{
  ℕ, ◌/◌, ◌%◌, Bool, true, false, ◌||◌, ◌==◌, not, if◌then◌else◌, List, [], ◌∷◌, ◌++◌, is_empty,
}
use netmon_plugins.Prelude.Text.{Bytes, codes, concat}

-- The fields of `NegatePlugin`, and the variable `inCommand` of `parseArguments`.
pub record Config : Type 0 where
  pub command : Bytes
  pub args : List Bytes
  pub in_command : Bool

abbrev pub default_config : Config
default_config = record { command = []; args = []; in_command = false }

unfoldable pub invert_exit_code : ℕ → ExitCode
invert_exit_code n =
    if n == 0 then critical else if n == 1 then warning else if n == 2 then ok else unknown

-- `WIFEXITED` and `WEXITSTATUS`
abbrev pub wifexited : ℕ → Bool
wifexited status = status % 128 == 0

abbrev pub wexitstatus : ℕ → ℕ
wexitstatus status = status / 256 % 256

unfoldable pub actual_exit_code : ℕ → ℕ
actual_exit_code status = if wifexited status then wexitstatus status else 3

-- `cmdLine << command; for (arg : args) cmdLine << " " << arg;`
abbrev pub spaced : List Bytes → Bytes
spaced [] = []
spaced (a ∷ args) = codes " " ++ (a ++ spaced args)

abbrev pub command_line : Config → Bytes
command_line c = c.command ++ spaced c.args

abbrev pub negated_result : ℕ → PluginResult
negated_result actual = plain_result (invert_exit_code actual) (
    concat (
      codes "Negated exit code: "
      ∷ to_string_ℕ actual
      ∷ codes " -> "
      ∷ to_string_ℕ (exit_status (invert_exit_code actual))
      ∷ []))

unfoldable pub check : (Bytes → ℕ) → Config → Result PluginResult
check system c =
    if is_empty c.command
    then returns (plain_result unknown (codes "Command must be specified"))
    else returns (negated_result (actual_exit_code (system (command_line c))))

-- The body of the loop in `parseArguments`.
unfoldable pub parse_argument : Config → Bytes → Action Config
parse_argument c a =
    if help_option a
    then show_help
    else if is_option (codes "-c") (codes "--command") a
    then with_value (λ v. returns (record c { command = v; in_command = true }))
    else if c.in_command || not (is_empty c.command)
    then update (record c { args = c.args ++ a ∷ [] })
    else update (record c { command = a; in_command = true })

unfoldable pub parse_arguments : List Bytes → Result (Parsed Config)
parse_arguments = parse_loop parse_argument default_config

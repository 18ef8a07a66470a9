-- ===== src/Dummy.antt =====
-- plugins/dummy/check_dummy.cpp: a plugin that reports the code and the message that it is given.
use netmon_plugins.Cpp.Result.{Result, returns}
use netmon_plugins.Plugin.{
  ExitCode, ok, warning, critical, unknown, exit_status, PluginResult, plain_result, print_result,
  execute_plugin,
}
use netmon_plugins.Plugin.Args.{
  Action, show_help, update, with_value, Parsed, configured, is_option, help_option, parse_loop,
  parse_loop-nil, parse_loop-update, parse_loop-with_value, exited, run_main,
}
use netmon_plugins.Prelude.{ℕ, ◌==◌, if◌then◌else◌, List, [], ◌∷◌, ◌≡◌, refl, ◌∙◌}
use netmon_plugins.Prelude.Text.{Bytes, codes, text_eq}

-- The fields of `DummyPlugin`.
pub record Config : Type 0 where
  pub exit_code : ℕ
  pub message : Bytes

abbrev pub default_config : Config
default_config = record { exit_code = 0; message = codes "This is a dummy plugin" }

-- `static_cast<ExitCode>(exitCode)`, at the values that the options can set.
abbrev pub to_exit_code : ℕ → ExitCode
to_exit_code n =
    if n == 0 then ok else if n == 1 then warning else if n == 2 then critical else unknown

unfoldable pub check : Config → Result PluginResult
check c = returns (plain_result (to_exit_code c.exit_code) c.message)

-- The body of the loop in `parseArguments`.
unfoldable pub parse_argument : Config → Bytes → Action Config
parse_argument c a =
    if help_option a
    then show_help
    else if is_option (codes "-o") (codes "--ok") a
    then update (record c { exit_code = 0 })
    else if is_option (codes "-w") (codes "--warning") a
    then update (record c { exit_code = 1 })
    else if is_option (codes "-c") (codes "--critical") a
    then update (record c { exit_code = 2 })
    else if is_option (codes "-u") (codes "--unknown") a
    then update (record c { exit_code = 3 })
    else if is_option (codes "-m") (codes "--message") a
    then with_value (λ v. returns (record c { message = v }))
    else update c

unfoldable pub parse_arguments : List Bytes → Result (Parsed Config)
parse_arguments = parse_loop parse_argument default_config

-- The option that asks for a code.
abbrev pub flag : ExitCode → Bytes
flag ok = codes "-o"
flag warning = codes "--warning"
flag critical = codes "-c"
flag unknown = codes "--unknown"

parse_argument-flag :
    (c : Config) (code : ExitCode)
    → parse_argument c (flag code) ≡ update (record c { exit_code = exit_status code })
unfolding parse_argument text_eq
parse_argument-flag c ok = refl
parse_argument-flag c warning = refl
parse_argument-flag c critical = refl
parse_argument-flag c unknown = refl

to_exit_code-exit_status : (code : ExitCode) → to_exit_code (exit_status code) ≡ code
to_exit_code-exit_status ok = refl
to_exit_code-exit_status warning = refl
to_exit_code-exit_status critical = refl
to_exit_code-exit_status unknown = refl

parse_arguments-flags :
    (message : Bytes) (first last : ExitCode)
    → parse_arguments (flag first ∷ codes "-m" ∷ message ∷ flag last ∷ [])
      ≡ returns (configured (record { exit_code = exit_status last; message = message }))
unfolding parse_arguments parse_argument text_eq
parse_arguments-flags message first last =
    parse_loop-update parse_argument _ _ (flag first) _ (parse_argument-flag _ first)
    ∙ parse_loop-with_value parse_argument _ _ (codes "-m") message (flag last ∷ [])
        (λ v. returns (record { exit_code = exit_status first; message = v })) refl refl
    ∙ parse_loop-update parse_argument _ _ (flag last) [] (parse_argument-flag _ last)
    ∙ parse_loop-nil parse_argument _

-- The whole program, from two options for a code with a message between them to the output and the exit
-- status: the last code that is asked for and the message are what is printed and returned.
pub run_main-flags :
    (usage message : Bytes) (first last : ExitCode)
    → run_main usage (parse_arguments (flag first ∷ codes "-m" ∷ message ∷ flag last ∷ [])) check
      ≡ exited (record {
        out = print_result (plain_result last message);
        err = [];
        status = exit_status last;
      })
unfolding run_main check execute_plugin
run_main-flags usage message first last =
    rw (parse_arguments-flags message first last) (rw (to_exit_code-exit_status last))

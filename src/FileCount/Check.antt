-- ===== src/FileCount/Check.antt =====
-- `check` and `parseArguments` of plugins/file_count/check_file_count.cpp. The file system is the argument
-- `stat`: what stands at a path, if anything does. Nothing in the `try` block throws.
pub mod Laws
use netmon_plugins.Cpp.Convert.{stoi}
use netmon_plugins.Cpp.Decimal.{to_string}
use netmon_plugins.Cpp.Result.{Result, returns, ◌>>=◌}
use netmon_plugins.FileCount.Tree.{Node, is_directory, Options, counted_files}
use netmon_plugins.Plugin.{ExitCode, ok, warning, critical, unknown, PluginResult, plain_result}
use netmon_plugins.Plugin.Args.{
  Action, show_help, update, with_value, Parsed, is_option, help_option, is_operand, parse_loop,
}
use netmon_plugins.Prelude.{
  Bool, true, false, ◌&&◌, if◌then◌else◌, List, [], ◌∷◌, ◌++◌, Option, none, some, is_empty, ℤ, pos,
  minus_one, ltb_ℤ, leb_ℤ, eqb_ℤ,
}
use netmon_plugins.Prelude.Text.{Bytes, codes, concat}
use netmon_plugins.Threshold.{upper_severity}

-- The fields of `FileCountPlugin`.
pub record Config : Type 0 where
  pub directory : Bytes
  pub pattern : Bytes
  pub recursive : Bool
  pub warning_count : ℤ
  pub critical_count : ℤ
  pub count_directories : Bool

abbrev pub default_config : Config
default_config = record {
  directory = [];
  pattern = [];
  recursive = false;
  warning_count = minus_one;
  critical_count = minus_one;
  count_directories = false;
}

-- The body of the loop in `parseArguments`.
unfoldable pub parse_argument : Config → Bytes → Action Config
parse_argument c a =
    if help_option a
    then show_help
    else if is_option (codes "-d") (codes "--directory") a
    then with_value (λ v. returns (record c { directory = v }))
    else if is_option (codes "-p") (codes "--pattern") a
    then with_value (λ v. returns (record c { pattern = v }))
    else if is_option (codes "-r") (codes "--recursive") a
    then update (record c { recursive = true })
    else if is_option (codes "-D") (codes "--count-dirs") a
    then update (record c { count_directories = true })
    else if is_option (codes "-w") (codes "--warning") a
    then with_value (λ v. stoi v >>= λ n. returns (record c { warning_count = n }))
    else if is_option (codes "-c") (codes "--critical") a
    then with_value (λ v. stoi v >>= λ n. returns (record c { critical_count = n }))
    else if is_empty c.directory && is_operand a
    then update (record c { directory = a })
    else update c

unfoldable pub parse_arguments : List Bytes → Result (Parsed Config)
parse_arguments = parse_loop parse_argument default_config

-- `isDirectory(path)`
abbrev pub is_directory_at : (Bytes → Option Node) → Bytes → Bool
is_directory_at stat path = elim (stat path) [ none ↦ false | some node ↦ is_directory node ]

abbrev pub options_of : Config → Options
options_of c = record {
  pattern = c.pattern;
  recursive = c.recursive;
  count_directories = c.count_directories;
}

-- `countFiles(directory, …)`
abbrev pub count_at : (Bytes → Option Node) → Config → Result ℤ
count_at stat c = elim (stat c.directory) [
  | none ↦ returns minus_one
  | some node ↦ counted_files (options_of c) node
]

-- What the branch that sets the exit code adds to the message.
abbrev exceeded : Config → ExitCode → Bytes
exceeded c ok = []
exceeded c critical =
    concat (codes " (exceeds critical threshold of " ∷ to_string c.critical_count ∷ codes ")" ∷ [])
exceeded c warning =
    concat (codes " (exceeds warning threshold of " ∷ to_string c.warning_count ∷ codes ")" ∷ [])
exceeded c unknown = []

count_message : Config → ℤ → Bytes
count_message c count = concat (
    codes "File count: "
    ∷ c.directory
    ∷ codes " contains "
    ∷ to_string count
    ∷ codes " file"
    ∷ (if eqb_ℤ count (pos 1) then [] else codes "s")
    ∷ (if is_empty c.pattern
        then []
        else concat (codes " matching pattern \"" ∷ c.pattern ∷ codes "\"" ∷ []))
    ∷ [])

count_perfdata : Config → ℤ → Bytes
count_perfdata c count = concat (
    codes "count="
    ∷ to_string count
    ∷ (if leb_ℤ (pos 0) c.warning_count
        then concat
            (codes ";" ∷ to_string c.warning_count ∷ codes ";" ∷ to_string c.critical_count ∷ [])
        else [])
    ∷ [])

-- The part of `check` behind the call of `countFiles`.
unfoldable pub report : Config → ℤ → PluginResult
unfolding count_message count_perfdata
report c count =
    let code = upper_severity c.warning_count c.critical_count count in
    if ltb_ℤ count (pos 0)
    then plain_result unknown (codes "Failed to count files in directory: " ++ c.directory)
    else record {
      code = code;
      message = count_message c count ++ exceeded c code;
      perfdata = count_perfdata c count;
    }

unfoldable pub check : (Bytes → Option Node) → Config → Result PluginResult
check stat c =
    if is_empty c.directory
    then returns (plain_result unknown (codes "Directory path must be specified"))
    else if is_directory_at stat c.directory
    then (count_at stat c >>= λ n. returns (report c n))
    else returns (plain_result critical (codes "Directory does not exist: " ++ c.directory))

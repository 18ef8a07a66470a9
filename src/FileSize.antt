-- ===== src/FileSize.antt =====
-- plugins/file_size/check_file_size.cpp: the size of a file, held against two limits. `accessible` is what
-- `access(path, F_OK) == 0` says, `size` the `st_size` that `stat` reports.
pub mod Laws
use netmon_plugins.Cpp.Convert.{stol, mul_long}
use netmon_plugins.Cpp.Decimal.{to_string}
use netmon_plugins.Cpp.Result.{Result, returns, ◌>>=◌}
use netmon_plugins.Plugin.{ExitCode, ok, warning, critical, unknown, PluginResult, plain_result}
use netmon_plugins.Plugin.Args.{
  Action, show_help, update, with_value, Parsed, is_option, help_option, is_operand, parse_loop,
}
use netmon_plugins.Prelude.{
  ℕ, ◌/◌, Bool, true, false, ◌&&◌, ◌||◌, ◌==◌, if◌then◌else◌, List, [], ◌∷◌, ◌++◌, Option, none,
  some, is_empty, ℤ, pos, minus_one, ltb_ℤ, leb_ℤ, pos_part, ◌^◌,
}
use netmon_plugins.Prelude.Text.{Bytes, codes, concat}
use netmon_plugins.Threshold.{upper_severity}

-- The fields of `FileSizePlugin`.
pub record Config : Type 0 where
  pub file_path : Bytes
  pub warning_size : ℤ
  pub critical_size : ℤ

abbrev pub default_config : Config
default_config = record { file_path = []; warning_size = minus_one; critical_size = minus_one }

pub record Disk : Type 0 where
  pub accessible : Bytes → Bool
  pub size : Bytes → Option ℤ

-- `getFileSize`: -1 if `stat` fails.
unfoldable pub get_file_size : Disk → Bytes → ℤ
get_file_size d path = elim (d.size path) [ none ↦ minus_one | some n ↦ n ]

unfoldable pub format_size : ℤ → Bytes
format_size bytes =
    if ltb_ℤ bytes (pos (2 ^ 10))
    then to_string bytes ++ codes " B"
    else if ltb_ℤ bytes (pos (2 ^ 20))
    then to_string (pos (pos_part bytes / 2 ^ 10)) ++ codes " KB"
    else if ltb_ℤ bytes (pos (2 ^ 30))
    then to_string (pos (pos_part bytes / 2 ^ 20)) ++ codes " MB"
    else to_string (pos (pos_part bytes / 2 ^ 30)) ++ codes " GB"

-- The `switch` on the byte behind the number; the product is a `long`.
unfoldable pub apply_unit : ℤ → ℕ → Result ℤ
apply_unit value unit =
    if unit == b'b' || unit == b'B'
    then returns value
    else if unit == b'k' || unit == b'K'
    then mul_long value (2 ^ 10)
    else if unit == b'm' || unit == b'M'
    then mul_long value (2 ^ 20)
    else if unit == b'g' || unit == b'G'
    then mul_long value (2 ^ 30)
    else returns value

abbrev scale : ℤ × Bytes → Result ℤ
scale (value, []) = returns value
scale (value, unit ∷ rest) = apply_unit value unit

unfoldable pub parse_size : Bytes → Result ℤ
parse_size s = if is_empty s then returns minus_one else stol s >>= scale

-- The body of the loop in `parseArguments`.
unfoldable pub parse_argument : Config → Bytes → Action Config
parse_argument c a =
    if help_option a
    then show_help
    else if is_option (codes "-f") (codes "--file") a
    then with_value (λ v. returns (record c { file_path = v }))
    else if is_option (codes "-w") (codes "--warning") a
    then with_value (λ v. parse_size v >>= λ n. returns (record c { warning_size = n }))
    else if is_option (codes "-c") (codes "--critical") a
    then with_value (λ v. parse_size v >>= λ n. returns (record c { critical_size = n }))
    else if is_empty c.file_path && is_operand a
    then update (record c { file_path = a })
    else update c

unfoldable pub parse_arguments : List Bytes → Result (Parsed Config)
parse_arguments = parse_loop parse_argument default_config

-- What the branch that sets the exit code adds to the message.
abbrev exceeded : Config → ExitCode → Bytes
exceeded c ok = []
exceeded c critical =
    concat (codes " (exceeds critical threshold of " ∷ format_size c.critical_size ∷ codes ")" ∷ [])
exceeded c warning =
    concat (codes " (exceeds warning threshold of " ∷ format_size c.warning_size ∷ codes ")" ∷ [])
exceeded c unknown = []

size_perfdata : Config → ℤ → Bytes
size_perfdata c size = concat (
    codes "size="
    ∷ to_string size
    ∷ codes "B"
    ∷ (if leb_ℤ (pos 0) c.warning_size
        then concat
            (codes ";" ∷ to_string c.warning_size ∷ codes ";" ∷ to_string c.critical_size ∷ [])
        else [])
    ∷ [])

-- The `try` block of `check` behind the call of `getFileSize`.
unfoldable pub report : Config → ℤ → PluginResult
unfolding size_perfdata
report c size =
    let code = upper_severity c.warning_size c.critical_size size in
    if ltb_ℤ size (pos 0)
    then plain_result unknown (codes "Failed to get file size: " ++ c.file_path)
    else record {
      code = code;
      message = concat (
          codes "File size check: "
          ∷ c.file_path
          ∷ codes " is "
          ∷ format_size size
          ∷ exceeded c code
          ∷ []);
      perfdata = size_perfdata c size;
    }

unfoldable pub check : Disk → Config → Result PluginResult
check d c =
    if is_empty c.file_path
    then returns (plain_result unknown (codes "File path must be specified"))
    else if d.accessible c.file_path
    then returns (report c (get_file_size d c.file_path))
    else returns (plain_result critical (codes "File does not exist: " ++ c.file_path))

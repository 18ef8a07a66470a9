-- ===== src/FileAge.antt =====
-- plugins/file_age/check_file_age.cpp: the age of a file, held against two limits. `accessible` is what
-- `access(path, F_OK) == 0` says, `modified` the modification time that `stat` reports, `now` what `time` returns.
pub mod Limits
pub mod Format
pub mod Verdict
use netmon_plugins.Cpp.Convert.{stol, to_int, mul_long}
use netmon_plugins.Cpp.Decimal.{to_string}
use netmon_plugins.Cpp.Result.{Result, returns, ◌>>=◌}
use netmon_plugins.Plugin.{ExitCode, ok, warning, critical, unknown, PluginResult, plain_result}
use netmon_plugins.Plugin.Args.{
  Action, show_help, update, with_value, Parsed, is_option, help_option, is_operand, parse_loop,
}
use netmon_plugins.Prelude.{
  ℕ, ◌/◌, Bool, true, false, ◌&&◌, ◌||◌, ◌==◌, if◌then◌else◌, List, [], ◌∷◌, ◌++◌, Option, none,
  some, is_empty, ℤ, pos, minus_one, ltb_ℤ, leb_ℤ, eqb_ℤ, pos_part, ◌-ℤ◌,
}
use netmon_plugins.Prelude.Text.{Bytes, codes, concat}
use netmon_plugins.Threshold.{upper_severity}

-- The fields of `FileAgePlugin`.
pub record Config : Type 0 where
  pub file_path : Bytes
  pub warning_age : ℤ
  pub critical_age : ℤ
  pub check_exists : Bool

abbrev pub default_config : Config
default_config = record {
  file_path = [];
  warning_age = minus_one;
  critical_age = minus_one;
  check_exists = true;
}

-- The file system and the clock.
pub record Disk : Type 0 where
  pub accessible : Bytes → Bool
  pub modified : Bytes → Option ℤ
  pub now : ℤ

-- `getFileAge`: -1 if `stat` fails.
unfoldable pub get_file_age : Disk → Bytes → ℤ
get_file_age d path = elim (d.modified path) [ none ↦ minus_one | some time ↦ d.now -ℤ time ]

-- `std::to_string(n) + " unit" + (n != 1 ? "s" : "")`
abbrev pub quantity : ℤ → Bytes → Bytes
quantity n unit = concat (to_string n ∷ unit ∷ (if eqb_ℤ n (pos 1) then [] else codes "s") ∷ [])

unfoldable pub format_age : ℤ → Bytes
format_age seconds =
    if ltb_ℤ seconds (pos 60)
    then quantity seconds (codes " second")
    else if ltb_ℤ seconds (pos 3600)
    then quantity (pos (pos_part seconds / 60)) (codes " minute")
    else if ltb_ℤ seconds (pos 86400)
    then quantity (pos (pos_part seconds / 3600)) (codes " hour")
    else quantity (pos (pos_part seconds / 86400)) (codes " day")

-- `static_cast<int>`
abbrev pub narrowed : Result ℤ → Result ℤ
narrowed m = m >>= λ v. returns (to_int v)

-- The `switch` on the byte behind the number. The product is a `long`, and the result an `int`.
unfoldable pub apply_unit : ℤ → ℕ → Result ℤ
apply_unit value unit =
    if unit == b's' || unit == b'S'
    then returns (to_int value)
    else if unit == b'm' || unit == b'M'
    then narrowed (mul_long value 60)
    else if unit == b'h' || unit == b'H'
    then narrowed (mul_long value 3600)
    else if unit == b'd' || unit == b'D'
    then narrowed (mul_long value 86400)
    else returns (to_int value)

abbrev scale : ℤ × Bytes → Result ℤ
scale (value, []) = returns (to_int value)
scale (value, unit ∷ rest) = apply_unit value unit

unfoldable pub parse_time : Bytes → Result ℤ
parse_time s = if is_empty s then returns minus_one else stol s >>= scale

-- The body of the loop in `parseArguments`.
unfoldable pub parse_argument : Config → Bytes → Action Config
parse_argument c a =
    if help_option a
    then show_help
    else if is_option (codes "-f") (codes "--file") a
    then with_value (λ v. returns (record c { file_path = v }))
    else if is_option (codes "-w") (codes "--warning") a
    then with_value (λ v. parse_time v >>= λ n. returns (record c { warning_age = n }))
    else if is_option (codes "-c") (codes "--critical") a
    then with_value (λ v. parse_time v >>= λ n. returns (record c { critical_age = n }))
    else if is_option (codes "-O") (codes "--ok-if-missing") a
    then update (record c { check_exists = false })
    else if is_empty c.file_path && is_operand a
    then update (record c { file_path = a })
    else update c

unfoldable pub parse_arguments : List Bytes → Result (Parsed Config)
parse_arguments = parse_loop parse_argument default_config

-- What the branch that sets the exit code adds to the message.
abbrev exceeded : Config → ExitCode → Bytes
exceeded c ok = []
exceeded c critical =
    concat (codes " (exceeds critical threshold of " ∷ format_age c.critical_age ∷ codes ")" ∷ [])
exceeded c warning =
    concat (codes " (exceeds warning threshold of " ∷ format_age c.warning_age ∷ codes ")" ∷ [])
exceeded c unknown = []

age_perfdata : Config → ℤ → Bytes
age_perfdata c age = concat (
    codes "age="
    ∷ to_string age
    ∷ codes "s"
    ∷ (if leb_ℤ (pos 0) c.warning_age
        then concat
            (codes ";" ∷ to_string c.warning_age ∷ codes ";" ∷ to_string c.critical_age ∷ [])
        else [])
    ∷ [])

-- The `try` block of `check` behind the call of `getFileAge`.
unfoldable pub report : Config → ℤ → PluginResult
unfolding age_perfdata
report c age =
    let code = upper_severity c.warning_age c.critical_age age in
    if ltb_ℤ age (pos 0)
    then plain_result unknown (codes "Failed to get file age: " ++ c.file_path)
    else record {
      code = code;
      message = concat (
          codes "File age check: "
          ∷ c.file_path
          ∷ codes " is "
          ∷ format_age age
          ∷ codes " old"
          ∷ exceeded c code
          ∷ []);
      perfdata = age_perfdata c age;
    }

unfoldable pub check : Disk → Config → Result PluginResult
check d c =
    if is_empty c.file_path
    then returns (plain_result unknown (codes "File path must be specified"))
    else if d.accessible c.file_path
    then returns (report c (get_file_age d c.file_path))
    else if c.check_exists
    then returns (plain_result critical (codes "File does not exist: " ++ c.file_path))
    else returns (plain_result ok (codes "File does not exist: " ++ c.file_path))

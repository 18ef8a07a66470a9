-- ===== src/Log.antt =====
-- plugins/log/check_log.cpp: the lines of a log file that match a pattern, held against two limits. The
-- file system and `std::regex` are the argument `System`.
pub mod Lines
pub mod Growth
use netmon_plugins.Cpp.Convert.{stoi, summed_int}
use netmon_plugins.Cpp.Decimal.{to_string}
use netmon_plugins.Cpp.Result.{
  Result, returns, throws, undefined, Exception, std_exception, ◌>>=◌, catch_std,
}
use netmon_plugins.Log.Lines.{lines}
use netmon_plugins.Plugin.{ExitCode, ok, warning, critical, unknown, PluginResult, plain_result}
use netmon_plugins.Plugin.Args.{
  Action, show_help, update, with_value, Parsed, is_option, help_option, is_operand, parse_loop,
}
use netmon_plugins.Prelude.{
  ℕ, ◌+◌, Bool, true, false, ◌&&◌, not, if◌then◌else◌, List, [], ◌∷◌, ◌++◌, Option, none, some,
  is_empty, ℤ, pos, minus_one, leb_ℤ, eqb_ℤ,
}
use netmon_plugins.Prelude.Text.{Bytes, codes, concat}
use netmon_plugins.Threshold.{upper_severity}

-- The fields of `LogPlugin`.
pub record Config : Type 0 where
  pub log_file : Bytes
  pub pattern : Bytes
  pub old_log_file : Bytes
  pub warning_count : ℤ
  pub critical_count : ℤ
  pub case_sensitive : Bool
  pub invert_match : Bool

abbrev pub default_config : Config
default_config = record {
  log_file = [];
  pattern = [];
  old_log_file = [];
  warning_count = minus_one;
  critical_count = minus_one;
  case_sensitive = true;
  invert_match = false;
}

pub record System : Type 0 where
  -- `access(path, F_OK) == 0`
  pub accessible : Bytes → Bool
  -- what an `std::ifstream` reads, if it opens
  pub contents : Bytes → Option Bytes
  -- `st_size`, if `stat` succeeds
  pub size : Bytes → Option ℤ
  -- `std::regex(pattern)` or `std::regex(pattern, icase)`, as the search that it makes in a line; it throws
  -- `std::regex_error`
  pub regex : Bool → Bytes → Result (Bytes → Bool)

unfoldable pub get_file_size : System → Bytes → ℤ
get_file_size sys path = elim (sys.size path) [ none ↦ minus_one | some n ↦ n ]

-- The loop of `countMatches` over the lines, without the limit of its `int`; `invert` is `invertMatch`.
unfoldable pub count_lines : Bool → (Bytes → Bool) → List Bytes → ℕ
count_lines invert search [] = 0
count_lines invert search (line ∷ rest) =
    (if invert then (if search line then 0 else 1) else (if search line then 1 else 0))
    + count_lines invert search rest

-- `catch (const std::regex_error& e) { throw std::runtime_error(…); }`
abbrev pub rethrown : Result (Bytes → Bool) → Result (Bytes → Bool)
rethrown (throws (std_exception what)) =
    throws (std_exception (codes "Invalid regex pattern: " ++ what))
rethrown m = m

-- `int matchCount` overflows exactly if the last count does not fit.
unfoldable pub count_matches : System → Config → Result ℤ
unfolding count_lines
count_matches sys c = elim (sys.contents c.log_file) [
  | none ↦ throws (std_exception (codes "Cannot open log file: " ++ c.log_file))
  | some text ↦ rethrown (sys.regex c.case_sensitive c.pattern) >>= λ search.
      summed_int (pos (count_lines c.invert_match search (lines text)))
]

-- The body of the loop in `parseArguments`.
unfoldable pub parse_argument : Config → Bytes → Action Config
parse_argument c a =
    if help_option a
    then show_help
    else if is_option (codes "-f") (codes "--file") a
    then with_value (λ v. returns (record c { log_file = v }))
    else if is_option (codes "-q") (codes "--query") a
    then with_value (λ v. returns (record c { pattern = v }))
    else if is_option (codes "-w") (codes "--warning") a
    then with_value (λ v. stoi v >>= λ n. returns (record c { warning_count = n }))
    else if is_option (codes "-c") (codes "--critical") a
    then with_value (λ v. stoi v >>= λ n. returns (record c { critical_count = n }))
    else if is_option (codes "-i") (codes "--case-insensitive") a
    then update (record c { case_sensitive = false })
    else if is_option (codes "-v") (codes "--invert-match") a
    then update (record c { invert_match = true })
    else if is_option (codes "-O") (codes "--oldlog") a
    then with_value (λ v. returns (record c { old_log_file = v }))
    else if is_empty c.log_file && is_operand a
    then update (record c { log_file = a })
    else update c

unfoldable pub parse_arguments : List Bytes → Result (Parsed Config)
parse_arguments = parse_loop parse_argument default_config

log_message : Config → ℤ → ℤ → Bytes
log_message c count size = concat (
    codes "Log file check: "
    ∷ c.log_file
    ∷ (if is_empty c.pattern
        then codes " - file exists and is readable"
        else concat (
            codes " - "
            ∷ to_string count
            ∷ codes " match"
            ∷ (if eqb_ℤ count (pos 1) then [] else codes "es")
            ∷ []))
    ∷ (if leb_ℤ (pos 0) size
        then concat (codes " (" ∷ to_string size ∷ codes " bytes)" ∷ [])
        else [])
    ∷ [])

log_perfdata : Config → ℤ → ℤ → Bytes
log_perfdata c count size = concat (
    codes "matches="
    ∷ to_string count
    ∷ (if leb_ℤ (pos 0) c.warning_count
        then concat
            (codes ";" ∷ to_string c.warning_count ∷ codes ";" ∷ to_string c.critical_count ∷ [])
        else [])
    ∷ (if leb_ℤ (pos 0) size then concat (codes " size=" ∷ to_string size ∷ codes "B" ∷ []) else [])
    ∷ [])

-- The `try` block of `check` behind the call of `countMatches`.
unfoldable pub report : System → Config → ℤ → PluginResult
unfolding log_message log_perfdata
report sys c count = record {
  code = upper_severity c.warning_count c.critical_count count;
  message = log_message c count (get_file_size sys c.log_file);
  perfdata = log_perfdata c count (get_file_size sys c.log_file);
}

-- Without a pattern nothing is counted, and the file is not opened.
abbrev pub counted : System → Config → Result ℤ
counted sys c = if is_empty c.pattern then returns (pos 0) else count_matches sys c

unfoldable pub check : System → Config → Result PluginResult
check sys c =
    if is_empty c.log_file
    then returns (plain_result unknown (codes "Log file path must be specified"))
    else if sys.accessible c.log_file
    then catch_std (counted sys c >>= λ n. returns (report sys c n))
        (λ what. plain_result unknown (codes "Log check failed: " ++ what))
    else returns (plain_result critical (codes "Log file does not exist: " ++ c.log_file))

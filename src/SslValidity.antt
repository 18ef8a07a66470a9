-- ===== src/SslValidity.antt =====
-- plugins/ssl_validity/check_ssl_validity.cpp: the days until a certificate expires, held against two limits.
pub mod Certificate
pub mod Verdict
use netmon_plugins.Cpp.Convert.{stoi}
use netmon_plugins.Cpp.Decimal.{to_string}
use netmon_plugins.Cpp.Result.{Result, returns, ◌>>=◌}
use netmon_plugins.Dependency.{check_openssl_available, dependency_warning}
use netmon_plugins.Plugin.{ExitCode, ok, warning, critical, unknown, PluginResult, plain_result}
use netmon_plugins.Plugin.Args.{
  Action, show_help, update, with_value, Parsed, is_option, help_option, parse_loop,
}
use netmon_plugins.Prelude.{
  Bool, true, false, if◌then◌else◌, List, [], ◌∷◌, ◌++◌, Option, none, some, is_empty, ℤ, pos,
  ltb_ℤ, leb_ℤ, eqb_ℤ,
}
use netmon_plugins.Prelude.Text.{Bytes, codes, concat}
use netmon_plugins.SslValidity.Certificate.{Answers, check_ssl_certificate}

-- The fields of `SslValidityPlugin`.
pub record Config : Type 0 where
  pub hostname : Bytes
  pub port : ℤ
  pub timeout_seconds : ℤ
  pub warning_days : ℤ
  pub critical_days : ℤ

abbrev pub default_config : Config
default_config = record {
  hostname = [];
  port = pos 443;
  timeout_seconds = pos 10;
  warning_days = pos 30;
  critical_days = pos 7;
}

-- The body of the loop in `parseArguments`.
unfoldable pub parse_argument : Config → Bytes → Action Config
parse_argument c a =
    if help_option a
    then show_help
    else if is_option (codes "-H") (codes "--hostname") a
    then with_value (λ v. returns (record c { hostname = v }))
    else if is_option (codes "-p") (codes "--port") a
    then with_value (λ v. stoi v >>= λ n. returns (record c { port = n }))
    else if is_option (codes "-t") (codes "--timeout") a
    then with_value (λ v. stoi v >>= λ n. returns (record c { timeout_seconds = n }))
    else if is_option (codes "-w") (codes "--warning") a
    then with_value (λ v. stoi v >>= λ n. returns (record c { warning_days = n }))
    else if is_option (codes "-c") (codes "--critical") a
    then with_value (λ v. stoi v >>= λ n. returns (record c { critical_days = n }))
    else update c

unfoldable pub parse_arguments : List Bytes → Result (Parsed Config)
parse_arguments = parse_loop parse_argument default_config

-- `code`
unfoldable pub severity : Config → ℤ → ExitCode
severity c days =
    if leb_ℤ (pos 0) days
    then (if leb_ℤ days c.critical_days
        then critical
        else if leb_ℤ days c.warning_days
        then warning
        else ok)
    else ok

-- What the branch that sets the exit code adds to the message.
abbrev expires_within : Config → ExitCode → Bytes
expires_within c critical =
    concat (codes " (CRITICAL: expires within " ∷ to_string c.critical_days ∷ codes " days)" ∷ [])
expires_within c warning =
    concat (codes " (WARNING: expires within " ∷ to_string c.warning_days ∷ codes " days)" ∷ [])
expires_within c ok = []
expires_within c unknown = []

expiry_text : ℤ → Bytes
expiry_text days =
    if leb_ℤ (pos 0) days
    then concat (
        codes " expires in "
        ∷ to_string days
        ∷ codes " day"
        ∷ (if eqb_ℤ days (pos 1) then [] else codes "s")
        ∷ [])
    else codes " (expiry unknown - SSL support not compiled in)"

expiry_perfdata : Config → ℤ → Bytes
expiry_perfdata c days =
    if leb_ℤ (pos 0) days
    then concat (
        codes "days_until_expiry="
        ∷ to_string days
        ∷ codes ";"
        ∷ to_string c.warning_days
        ∷ codes ";"
        ∷ to_string c.critical_days
        ∷ [])
    else []

-- The part of `check` behind a successful `checkSslCertificate`.
unfoldable pub report : Config → ℤ → PluginResult
unfolding expiry_text expiry_perfdata
report c days = record {
  code = severity c days;
  message = concat (
      codes "SSL OK - Certificate for "
      ∷ c.hostname
      ∷ codes ":"
      ∷ to_string c.port
      ∷ expiry_text days
      ∷ expires_within c (severity c days)
      ∷ []);
  perfdata = expiry_perfdata c days;
}

-- What goes to `std::cerr`, and the result. `answers` is what the system and OpenSSL say about a host, a port
-- and a timeout, and `now` is `time(nullptr)`.
unfoldable pub check : Bool → (Bytes → ℤ → ℤ → Answers) → ℤ → Config → Bytes × PluginResult
check built_with_ssl answers now c =
    let certificate =
      check_ssl_certificate built_with_ssl (answers c.hostname c.port c.timeout_seconds) now in
    if is_empty c.hostname
    then ([], plain_result unknown (codes "Hostname must be specified"))
    else (
      (if check_openssl_available built_with_ssl
          then []
          else dependency_warning (codes "check_ssl_validity") (codes "OpenSSL")
              (codes "port connectivity check only (no certificate validation)")),
      elim certificate.1 [
        | none ↦ plain_result critical (
            concat (
              codes "SSL CRITICAL - Cannot connect to "
              ∷ c.hostname
              ∷ codes ":"
              ∷ to_string c.port
              ∷ []))
        | some days ↦ report c days
      ],
    )

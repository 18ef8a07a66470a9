-- ===== src/Clock/NtpTime.antt =====
-- plugins/ntp_time/check_ntp_time.cpp.
use netmon_plugins.Clock.{Offsets, severity}
use netmon_plugins.Cpp.Decimal.{to_string}
use netmon_plugins.Cpp.Result.{Result, returns, ◌>>=◌}
use netmon_plugins.Ntp.{Answers, Call, Doubles, QueryResult, query, ntp}
use netmon_plugins.Plugin.{ExitCode, warning, critical, PluginResult, plain_result}
use netmon_plugins.Plugin.Args.{
  Action, show_help, update, with_text, with_value, with_number, Parsed, is_option, help_option,
  parse_loop,
}
use netmon_plugins.Prelude.Text.{Bytes, codes, concat}
use netmon_plugins.Prelude.{if◌then◌else◌, List, [], ◌∷◌, ◌++◌, ℤ, pos}

-- The fields of `NtpTimePlugin`.
pub record Config (D : Type 0) : Type 0 where
  pub hostname : Bytes
  pub port : ℤ
  pub timeout_seconds : ℤ
  pub warning_offset : D
  pub critical_offset : D

module _ {D : Type 0} (d : Doubles D) (o : Offsets D) where
  unfoldable pub default_config : Config D
  default_config = record {
    hostname = codes "pool.ntp.org";
    port = pos 123;
    timeout_seconds = pos 10;
    warning_offset = d.of_int (pos 1);
    critical_offset = d.of_int (pos 5);
  }

  -- The body of the loop in `parseArguments`.
  unfoldable pub parse_argument : Config D → Bytes → Action (Config D)
  parse_argument k a =
      if help_option a
      then show_help
      else if is_option (codes "-H") (codes "--hostname") a
      then with_text (λ v. record k { hostname = v })
      else if is_option (codes "-p") (codes "--port") a
      then with_number (λ n. record k { port = n })
      else if is_option (codes "-w") (codes "--warning") a
      then with_value (λ v. o.stod v >>= λ x. returns (record k { warning_offset = x }))
      else if is_option (codes "-c") (codes "--critical") a
      then with_value (λ v. o.stod v >>= λ x. returns (record k { critical_offset = x }))
      else if is_option (codes "-t") (codes "--timeout") a
      then with_number (λ n. record k { timeout_seconds = n })
      else update k

  unfoldable pub parse_arguments : List Bytes → Result (Parsed (Config D))
  parse_arguments = parse_loop parse_argument default_config

  unfoldable pub message : Config D → ExitCode → D → Bytes
  message k critical offset =
      concat (codes "NTP time CRITICAL - offset " ∷ o.fixed offset ∷ codes "s" ∷ [])
  message k warning offset =
      concat (codes "NTP time WARNING - offset " ∷ o.fixed offset ∷ codes "s" ∷ [])
  message k code offset = concat (
      codes "NTP time OK - offset "
      ∷ o.fixed offset
      ∷ codes "s on "
      ∷ k.hostname
      ∷ codes ":"
      ∷ to_string k.port
      ∷ [])

  unfoldable pub report : Config D → QueryResult D → PluginResult
  report k r =
      let code = severity o k.warning_offset k.critical_offset r.offset_seconds in
      if r.ok
      then record {
        code = code;
        message = message k code r.offset_seconds;
        perfdata = concat (codes "ntp_time_offset=" ∷ o.fixed r.offset_seconds ∷ codes "s" ∷ []);
      }
      else plain_result critical (codes "NTP time CRITICAL - " ++ r.error)

  -- The calls of the query, and the result. `answers` is what the system answers for a host, a port and a timeout.
  unfoldable pub check : (Bytes → ℤ → ℤ → Answers) → Config D → List Call × PluginResult
  check answers k =
      let asked = query d ntp (answers k.hostname k.port k.timeout_seconds) in
      (asked.0, report k asked.1)

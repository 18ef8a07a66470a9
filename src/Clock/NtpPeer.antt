-- ===== src/Clock/NtpPeer.antt =====
-- plugins/ntp_peer/check_ntp_peer.cpp.
use netmon_plugins.Clock.{Offsets}
use netmon_plugins.Cpp.Decimal.{to_string, to_string_ℕ}
use netmon_plugins.Cpp.Result.{Result}
use netmon_plugins.Ntp.{Answers, Call, Doubles, QueryResult, query, ntp}
use netmon_plugins.Plugin.{ExitCode, ok, warning, critical, PluginResult, plain_result}
use netmon_plugins.Plugin.Args.{
  Action, show_help, update, with_text, with_number, Parsed, is_option, help_option, parse_loop,
}
use netmon_plugins.Prelude.Text.{Bytes, codes, concat}
use netmon_plugins.Prelude.{
  Bool, ◌&&◌, ◌==◌, if◌then◌else◌, List, [], ◌∷◌, ◌++◌, ℕ, ℤ, pos, ltb_ℤ, leb_ℤ,
}

-- The fields of `NtpPeerPlugin`.
pub record Config : Type 0 where
  pub hostname : Bytes
  pub port : ℤ
  pub timeout_seconds : ℤ
  pub warning_stratum : ℤ
  pub critical_stratum : ℤ

unfoldable pub default_config : Config
default_config = record {
  hostname = codes "pool.ntp.org";
  port = pos 123;
  timeout_seconds = pos 10;
  warning_stratum = pos 10;
  critical_stratum = pos 16;
}

-- The body of the loop in `parseArguments`.
unfoldable pub parse_argument : Config → Bytes → Action Config
parse_argument k a =
    if help_option a
    then show_help
    else if is_option (codes "-H") (codes "--hostname") a
    then with_text (λ v. record k { hostname = v })
    else if is_option (codes "-p") (codes "--port") a
    then with_number (λ n. record k { port = n })
    else if is_option (codes "-w") (codes "--warning") a
    then with_number (λ n. record k { warning_stratum = n })
    else if is_option (codes "-c") (codes "--critical") a
    then with_number (λ n. record k { critical_stratum = n })
    else if is_option (codes "-t") (codes "--timeout") a
    then with_number (λ n. record k { timeout_seconds = n })
    else update k

unfoldable pub parse_arguments : List Bytes → Result (Parsed Config)
parse_arguments = parse_loop parse_argument default_config

-- `limit > 0 && result.stratum >= limit`
abbrev pub reaches : ℤ → ℕ → Bool
reaches limit stratum = ltb_ℤ (pos 0) limit && leb_ℤ limit (pos stratum)

unfoldable pub judge : Config → ℕ → Bytes → ExitCode × Bytes
judge k stratum offset =
    if stratum == 0
    then (
      critical,
      concat (codes "NTP peer CRITICAL - " ∷ k.hostname ∷ codes " returned invalid stratum 0" ∷ []),
    )
    else if reaches k.critical_stratum stratum
    then (
      critical,
      concat (
          codes "NTP peer CRITICAL - stratum "
          ∷ to_string_ℕ stratum
          ∷ codes " >= "
          ∷ to_string k.critical_stratum
          ∷ []),
    )
    else if reaches k.warning_stratum stratum
    then (
      warning,
      concat (
          codes "NTP peer WARNING - stratum "
          ∷ to_string_ℕ stratum
          ∷ codes " >= "
          ∷ to_string k.warning_stratum
          ∷ []),
    )
    else (
      ok,
      concat (
          codes "NTP peer OK - "
          ∷ k.hostname
          ∷ codes ":"
          ∷ to_string k.port
          ∷ codes " stratum "
          ∷ to_string_ℕ stratum
          ∷ codes ", offset "
          ∷ offset
          ∷ codes "s"
          ∷ []),
    )

unfoldable pub perf : Config → ℕ → Bytes → Bytes
perf k stratum offset = concat (
    codes "ntp_stratum="
    ∷ to_string_ℕ stratum
    ∷ (if ltb_ℤ (pos 0) k.warning_stratum
        then concat (
            codes ";" ∷ to_string k.warning_stratum ∷ codes ";" ∷ to_string k.critical_stratum ∷ [])
        else [])
    ∷ codes " ntp_offset="
    ∷ offset
    ∷ codes "s"
    ∷ [])

module _ {D : Type 0} (d : Doubles D) (o : Offsets D) where
  unfoldable pub report : Config → QueryResult D → PluginResult
  report k r =
      let judged = judge k r.stratum (o.fixed r.offset_seconds) in
      if r.ok
      then record {
        code = judged.0;
        message = judged.1;
        perfdata = perf k r.stratum (o.fixed r.offset_seconds);
      }
      else plain_result critical (codes "NTP peer CRITICAL - unreachable: " ++ r.error)

  -- The calls of the query, and the result. `answers` is what the system answers for a host, a port and a timeout.
  unfoldable pub check : (Bytes → ℤ → ℤ → Answers) → Config → List Call × PluginResult
  check answers k =
      let asked = query d ntp (answers k.hostname k.port k.timeout_seconds) in
      (asked.0, report k asked.1)

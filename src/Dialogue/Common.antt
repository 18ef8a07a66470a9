-- ===== src/Dialogue/Common.antt =====
-- What the plugins of services report, each in a copy of its own.
use netmon_plugins.Cpp.Decimal.{to_string}
use netmon_plugins.Plugin.{ok, critical, unknown, PluginResult, plain_result}
use netmon_plugins.Prelude.Text.{Bytes, codes, concat}
use netmon_plugins.Prelude.{ℕ, Bool, true, false, not, [], ◌∷◌, ℤ}

-- The service's name, the host and the port, and a text that differs between the plugins.
abbrev pub verdict : Bytes → Bytes → Bytes → ℤ → Bytes → Bytes
verdict service code host port outcome =
    concat (service ∷ code ∷ host ∷ codes ":" ∷ to_string port ∷ outcome ∷ [])

unfoldable pub service_report : Bytes → Bytes → Bytes → Bytes → ℤ → Bool → PluginResult
service_report service good bad host port true =
    plain_result ok (verdict service (codes " OK - ") host port good)
service_report service good bad host port false =
    plain_result critical (verdict service (codes " CRITICAL - ") host port bad)

abbrev pub accepts_connections : Bytes → Bytes → ℤ → Bool → PluginResult
accepts_connections service =
    service_report service (codes " is accepting connections")
      (codes " is not accepting connections")

abbrev pub no_host : PluginResult
no_host = plain_result unknown (codes "Hostname must be specified")

-- The first byte of a reply is not as wanted, or there is no reply.
abbrev pub refuses : (ℕ → Bool) → Bytes → Bool
refuses wanted [] = true
refuses wanted (c ∷ s) = not (wanted c)

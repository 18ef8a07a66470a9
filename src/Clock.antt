-- ===== src/Clock.antt =====
-- The plugins that compare the local clock with a server: plugins/ntp, ntp_time, ntp_peer and time. What they use of
-- `double` beside the arithmetic of the client is the interface `Offsets`.
pub mod NtpOffset
pub mod NtpTime
pub mod NtpPeer
pub mod TimeServer
pub mod Severity
use netmon_plugins.Cpp.Result.{Result}
use netmon_plugins.Plugin.{ExitCode, ok, warning, critical}
use netmon_plugins.Prelude.Text.{Bytes}
use netmon_plugins.Prelude.{Bool, ◌&&◌, if◌then◌else◌}

-- `std::stod`, `<<` with three decimals, `std::abs`, `>` and 0.
pub record Offsets (D : Type 0) : Type 0 where
  pub stod : Bytes → Result D
  pub fixed : D → Bytes
  pub abs : D → D
  pub above : D → D → Bool
  pub nought : D

module _ {D : Type 0} (o : Offsets D) where
  -- `limit > 0 && std::abs(offset) > limit`
  unfoldable pub exceeds : D → D → Bool
  exceeds limit offset = o.above limit o.nought && o.above (o.abs offset) limit

  -- The chain of check_ntp, check_ntp_time and check_time.
  unfoldable pub severity : D → D → D → ExitCode
  severity warn crit offset =
      if exceeds crit offset then critical else if exceeds warn offset then warning else ok

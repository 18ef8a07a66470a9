-- ===== src/Clock/Severity.antt =====
-- How the results of check_ntp, check_ntp_time and check_time grow with the offset, for every interface whose `>` is
-- transitive, as that of IEEE numbers is.
use netmon_plugins.Clock.{Offsets, exceeds, severity}
use netmon_plugins.Clock.NtpOffset
use netmon_plugins.Clock.NtpTime
use netmon_plugins.Clock.TimeServer
use netmon_plugins.Ntp.{Doubles, QueryResult}
use netmon_plugins.Plugin.{PluginResult, exit_status, critical}
use netmon_plugins.Prelude.{
  Bool, if◌then◌else◌, refl, not, ◌||◌, ◌&&◌, ◌≤◌, ◌≡◌, true, false, arith,
}

abbrev pub IsOrdered : {D : Type 0} → Offsets D → Type 0
IsOrdered {D = D} o =
    (a b limit : D) → o.above a limit ≡ true → o.above b a ≡ true → o.above b limit ≡ true

-- A larger offset, ahead or behind, is never less severe.
pub severity_mono :
    {D : Type 0} (o : Offsets D)
    → IsOrdered o
    → (warn crit a b : D) → o.above (o.abs b) (o.abs a) ≡ true
    → exit_status (severity o warn crit a) ≤ exit_status (severity o warn crit b)
unfolding severity exceeds
severity_mono o ordered warn crit a b h =
    ground (arith, ordered (o.abs a) (o.abs b) crit, ordered (o.abs a) (o.abs b) warn)

severity_bound :
    {D : Type 0} (o : Offsets D) (warn crit a : D) → exit_status (severity o warn crit a) ≤ 2
unfolding severity
severity_bound o warn crit a = ground arith

-- The first answer is a failure, or both are answers and the first is further off.
unfoldable pub is_worse : {D : Type 0} → Offsets D → QueryResult D → QueryResult D → Bool
is_worse o y x = not y.ok || x.ok && o.above (o.abs y.offset_seconds) (o.abs x.offset_seconds)

-- A chain of results that is CRITICAL for a failure.
chains_mono :
    {D : Type 0} (o : Offsets D)
    → IsOrdered o
    → (warn crit a b : D) (reached_a reached_b : Bool) (ra rb fa fb : PluginResult)
    → not reached_b || reached_a && o.above (o.abs b) (o.abs a) ≡ true
    → ra.code ≡ severity o warn crit a
    → rb.code ≡ severity o warn crit b
    → fa.code ≡ critical
    → fb.code ≡ critical
    → exit_status (if reached_a then ra else fa).code
      ≤ exit_status (if reached_b then rb else fb).code
chains_mono o ordered warn crit a b true true ra rb fa fb h p q r s =
    rw (p, q) (severity_mono o ordered warn crit a b h)
chains_mono o ordered warn crit a b true false ra rb fa fb h p q r s =
    rw (p, s) (severity_bound o warn crit a)
chains_mono o ordered warn crit a b false true ra rb fa fb h p q r s = ground arith
chains_mono o ordered warn crit a b false false ra rb fa fb h p q r s = rw (r, s) (omega arith)

-- In check_ntp, check_ntp_time and check_time, a failure of the query, or an offset that is larger, ahead or behind,
-- never makes the result less severe, whatever the limits are. The test `>` must be transitive.
pub reports_mono :
    {D : Type 0} (d : Doubles D) (o : Offsets D)
    → IsOrdered o
    → (k : NtpOffset.Config D) (j : NtpTime.Config D) (i : TimeServer.Config D)
    → (x y : QueryResult D) → is_worse o y x ≡ true
    → exit_status (NtpOffset.report d o k x).code ≤ exit_status (NtpOffset.report d o k y).code
      × (exit_status (NtpTime.report d o j x).code ≤ exit_status (NtpTime.report d o j y).code
          × exit_status (TimeServer.report d o i x).code
            ≤ exit_status (TimeServer.report d o i y).code)
unfolding NtpOffset.report NtpTime.report TimeServer.report is_worse
reports_mono d o ordered k j i x y h = (
  chains_mono o ordered k.warning_offset k.critical_offset x.offset_seconds y.offset_seconds x.ok
      y.ok _ _ _ _ h refl refl refl refl,
  (
    chains_mono o ordered j.warning_offset j.critical_offset x.offset_seconds y.offset_seconds x.ok
        y.ok _ _ _ _ h refl refl refl refl,
    chains_mono o ordered i.warning_offset i.critical_offset x.offset_seconds y.offset_seconds x.ok
        y.ok _ _ _ _ h refl refl refl refl,
  ),
)

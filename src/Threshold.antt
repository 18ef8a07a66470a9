-- ===== src/Threshold.antt =====
-- The threshold chain that check_file_count, check_file_age, check_file_size and check_log share:
-- `if (critical >= 0 && v >= critical) … else if (warning >= 0 && v >= warning) …`.
use netmon_plugins.Plugin.{ExitCode, ok, warning, critical, exit_status}
use netmon_plugins.Prelude.{◌≤◌, ◌≡◌, ◌↔◌, Bool, ◌&&◌, arith, if◌then◌else◌, ℤ, pos, leb_ℤ, ◌≤ℤ◌}

-- A threshold is on if it is not negative, and met if the value reaches it.
unfoldable pub reached : ℤ → ℤ → Bool
reached limit v = leb_ℤ (pos 0) limit && leb_ℤ limit v

unfoldable pub upper_severity : ℤ → ℤ → ℤ → ExitCode
unfolding reached
upper_severity warn crit v =
    if reached crit v then critical else if reached warn v then warning else ok

-- The threshold is on, and the value is at least as large.
abbrev pub Meets : ℤ → ℤ → Type 0
Meets limit v = (pos 0 ≤ℤ limit) × (limit ≤ℤ v)

-- The severity, described without the order of the tests: CRITICAL exactly if the critical limit is on and
-- met, WARNING exactly if the warning limit is and the critical one is not, OK exactly if neither is.
pub upper_severity_iff :
    (warn crit v : ℤ)
    → ((upper_severity warn crit v ≡ critical) ↔ Meets crit v)
      × ((upper_severity warn crit v ≡ warning) ↔ (Meets warn v × ¬ Meets crit v))
      × ((upper_severity warn crit v ≡ ok) ↔ (¬ Meets warn v × ¬ Meets crit v))
unfolding upper_severity
upper_severity_iff warn crit v = ground arith

-- A larger value is never less severe, in whatever order the two thresholds stand.
pub upper_severity_mono :
    (warn crit v v' : ℤ)
    → v ≤ℤ v'
    → exit_status (upper_severity warn crit v) ≤ exit_status (upper_severity warn crit v')
unfolding upper_severity
upper_severity_mono warn crit v v' h = ground arith

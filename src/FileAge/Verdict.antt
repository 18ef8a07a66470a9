-- ===== src/FileAge/Verdict.antt =====
-- The exit code of check_file_age as the clock moves on, and where the clock stands before the file's time.
use netmon_plugins.Cpp.Result.{returns}
use netmon_plugins.FileAge.{Config, Disk, get_file_age, report, check}
use netmon_plugins.Plugin.{unknown, exit_status, PluginResult}
use netmon_plugins.Prelude.{◌≤◌, ◌≡◌, ◌≢◌, true, [], some, arith, ℤ, pos, ◌≤ℤ◌, ◌-ℤ◌}
use netmon_plugins.Threshold.{upper_severity, upper_severity_mono}

-- The disk at another time.
abbrev pub at_time : Disk → ℤ → Disk
at_time d t = record d { now = t }

age-nonneg : (t m : ℤ) → m ≤ℤ t → pos 0 ≤ℤ t -ℤ m
unfolding ◌-ℤ◌
age-nonneg t m h = ground arith

age_mono : (t t' m : ℤ) → t ≤ℤ t' → t -ℤ m ≤ℤ t' -ℤ m
unfolding ◌-ℤ◌
age_mono t t' m h = ground arith

report-code :
    (c : Config) (age : ℤ)
    → pos 0 ≤ℤ age
    → (report c age).code ≡ upper_severity c.warning_age c.critical_age age
unfolding report
report-code c age h = ground arith

check-report :
    (d : Disk) (c : Config) (m : ℤ)
    → c.file_path ≢ []
    → d.accessible c.file_path ≡ true
    → d.modified c.file_path ≡ some m
    → check d c ≡ returns (report c (d.now -ℤ m))
unfolding check get_file_age
check-report d c m named there time = ground arith

-- A file that is there and left alone, with a modification time that is not ahead of the clock, never
-- becomes less severe as the clock moves on.
pub check_mono :
    (d : Disk) (c : Config) (m t t' : ℤ)
    → c.file_path ≢ []
    → d.accessible c.file_path ≡ true
    → d.modified c.file_path ≡ some m
    → m ≤ℤ t
    → t ≤ℤ t'
    → (r : PluginResult) × (r' : PluginResult) × (check (at_time d t) c ≡ returns r)
      × (check (at_time d t') c ≡ returns r')
      × (exit_status r.code ≤ exit_status r'.code)
check_mono d c m t t' named there time past later = (
  report c (t -ℤ m),
  report c (t' -ℤ m),
  check-report (at_time d t) c m named there time,
  check-report (at_time d t') c m named there time,
  rw
      (
        report-code c (t -ℤ m) (age-nonneg t m past),
        report-code c (t' -ℤ m) (age-nonneg t' m (omega arith)),
      )
      (upper_severity_mono c.warning_age c.critical_age _ _ (age_mono t t' m later)),
)

-- Where the file is there and its modification time is ahead of the clock, the result is UNKNOWN, whatever
-- the limits are.
pub check-future :
    (d : Disk) (c : Config) (m : ℤ)
    → c.file_path ≢ []
    → d.accessible c.file_path ≡ true
    → d.modified c.file_path ≡ some m
    → ¬ (m ≤ℤ d.now)
    → (r : PluginResult) × (check d c ≡ returns r) × (r.code ≡ unknown)
check-future d c m named there time ahead =
    (report c (d.now -ℤ m), check-report d c m named there time, unfold report ◌-ℤ◌ in ground arith)

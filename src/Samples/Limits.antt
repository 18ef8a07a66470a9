-- ===== src/Samples/Limits.antt =====
-- check_file_age, check_file_size and check_log at concrete inputs.
use netmon_plugins.Cpp.Decimal.{to_string}
use netmon_plugins.Cpp.Result.{returns}
use netmon_plugins.FileAge
use netmon_plugins.FileAge.Format.{Shows, format_age-Shows}
use netmon_plugins.FileAge.Limits.{days, parse_time-wraps}
use netmon_plugins.FileAge.Verdict.{at_time, check_mono, check-future}
use netmon_plugins.FileSize
use netmon_plugins.Log
use netmon_plugins.Log.Growth.{with_contents, check-append}
use netmon_plugins.Log.Lines.{line_feed, lines}
use netmon_plugins.Plugin.{critical, unknown, exit_status, PluginResult}
use netmon_plugins.Prelude.{
  ◌<◌, ◌^◌, ◌≡◌, ◌≢◌, ◌≤◌, inl, refl, arith, true, false, [], ◌∷◌, ◌++◌, some, none, pos, negsuc, ℤ,
}
use netmon_plugins.Prelude.Text.{codes, contains, split_at_first, strip_prefix}
use netmon_plugins.Threshold.{upper_severity}

-- A file that was changed at 1000.
abbrev aged : FileAge.Disk
aged = record { accessible = λ path. true; modified = λ path. some (pos 1000); now = pos 900 }

abbrev age_config : FileAge.Config
age_config = record {
  file_path = codes "/x";
  warning_age = pos 60;
  critical_age = pos 600;
  check_exists = true;
}

check_mono_example :
    (r : PluginResult) × (r' : PluginResult) × (FileAge.check (at_time aged (pos 1050)) age_config
      ≡ returns r)
    × (FileAge.check (at_time aged (pos 1700)) age_config ≡ returns r')
    × (exit_status r.code ≤ exit_status r'.code)
check_mono_example =
    check_mono aged age_config (pos 1000) (pos 1050) (pos 1700) (λ p. ground arith) refl refl
      (omega arith) (omega arith)

check-future_example :
    (r : PluginResult) × (FileAge.check aged age_config ≡ returns r) × (r.code ≡ unknown)
check-future_example =
    check-future aged age_config (pos 1000) (λ p. ground arith) refl refl
      (λ h. absurd (omega arith))

format_age-Shows_example : Shows 7200 (FileAge.format_age (pos 7200))
format_age-Shows_example = format_age-Shows 7200

-- `30000d`
parse_time-wraps_example :
    (limit : ℤ) × (FileAge.parse_time (to_string (pos 30000) ++ codes "d") ≡ returns limit)
    × (upper_severity (pos 60) limit (pos 1000000) ≢ critical)
parse_time-wraps_example =
    parse_time-wraps (days (inl refl)) 30000 [] (pos 60) (pos 1000000) (omega arith) (omega arith)

abbrev sized : FileSize.Disk
sized = record { accessible = λ path. true; size = λ path. some (pos 4096) }

abbrev size_config : FileSize.Config
size_config = record { file_path = codes "/x"; warning_size = pos 5000; critical_size = negsuc 0 }

abbrev size_result : PluginResult
size_result = FileSize.report size_config (pos 4096)

size_run : FileSize.check sized size_config ≡ returns size_result
unfolding FileSize.check FileSize.get_file_size
size_run = refl

-- A log that is not there, and a search for `err`.
abbrev sys : Log.System
sys = record {
  accessible = λ path. true;
  contents = λ path. none;
  size = λ path. none;
  regex = λ exact pattern. returns (contains pattern);
}

abbrev log_config : Log.Config
log_config = record {
  log_file = codes "/log";
  pattern = codes "err";
  old_log_file = [];
  warning_count = pos 1;
  critical_count = pos 2;
  case_sensitive = true;
  invert_match = false;
}

few_matches :
    Log.count_lines false
      (contains (codes "err"))
      (lines (codes "err 1" ++ line_feed ∷ codes "err 2"))
    < 2 ^ 31
unfolding Log.count_lines lines contains split_at_first strip_prefix
few_matches = omega arith

check-append_example :
    (r : PluginResult) × (r' : PluginResult) × (Log.check
        (with_contents sys (codes "err 1" ++ line_feed ∷ []))
        log_config
      ≡ returns r)
    × (Log.check (with_contents sys (codes "err 1" ++ line_feed ∷ codes "err 2")) log_config
        ≡ returns r')
    × (exit_status r.code ≤ exit_status r'.code)
check-append_example =
    check-append sys log_config (contains (codes "err")) (λ p. ground arith) refl
      (λ p. ground arith) refl (codes "err 1") (codes "err 2") few_matches

-- ===== src/Plugin/Report.antt =====
-- What a monitoring system reads off the output and the status of a plugin.
use netmon_plugins.Cpp.Result.{Result, returns, throws, undefined, std_exception, other_exception}
use netmon_plugins.Plugin.{
  ExitCode, ok, warning, critical, unknown, exit_status, PluginResult, print_result, Run,
  execute_plugin, exit_code_to_string,
}
use netmon_plugins.Prelude.{◌≤◌, ◌≡◌, refl, ◌≢◌, ◌⊎◌, inl, inr, [], Option, none, some, arith}
use netmon_plugins.Prelude.Text.{Bytes, codes, strip_prefix}

-- The status word of a line, told apart by the word and the colon behind it.
abbrev pub status_of_line : Bytes → Option ExitCode
status_of_line s = elim (strip_prefix (codes "OK: ") s) [
  | some _ ↦ some ok
  | none ↦ elim (strip_prefix (codes "WARNING: ") s) [
    | some _ ↦ some warning
    | none ↦ elim (strip_prefix (codes "CRITICAL: ") s) [
      | some _ ↦ some critical
      | none ↦ elim (strip_prefix (codes "UNKNOWN: ") s) [ some _ ↦ some unknown | none ↦ none ]
    ]
  ]
]

-- The printed line determines the exit code, whatever the message and the performance data hold.
pub status_of_line-print_result : (r : PluginResult) → status_of_line (print_result r) ≡ some r.code
unfolding print_result strip_prefix exit_code_to_string
status_of_line-print_result r = go r.code r.message r.perfdata
  where
    go :
        (c : ExitCode) (m p : Bytes)
        → status_of_line (print_result (record { code = c; message = m; perfdata = p })) ≡ some c
    go ok m p = refl
    go warning m p = refl
    go critical m p = refl
    go unknown m p = refl

-- What a scheduler relies on: a status below 4, and a line that agrees with it or no line at all.
abbrev pub IsCoherent : Run → Type 0
IsCoherent r =
    (r.status ≤ 3)
    × (((c : ExitCode) × (status_of_line r.out ≡ some c) × (exit_status c ≡ r.status))
        ⊎ ((r.out ≡ []) × (r.status ≡ 3)))

exit_status-le : (c : ExitCode) → exit_status c ≤ 3
exit_status-le ok = omega arith
exit_status-le warning = omega arith
exit_status-le critical = omega arith
exit_status-le unknown = omega arith

-- Every check that returns or throws, that is one without undefined behaviour, ends in a run with a status
-- from 0 to 3 in which the line on standard output names the code of the status, or in one with the status
-- 3 and no such line.
pub execute_plugin-IsCoherent :
    (m : Result PluginResult)
    → m ≢ undefined
    → (run : Run) × (execute_plugin m ≡ returns run) × IsCoherent run
unfolding execute_plugin
execute_plugin-IsCoherent (returns r) h =
    (_, refl, (exit_status-le r.code, inl (r.code, status_of_line-print_result r, refl)))
execute_plugin-IsCoherent (throws (std_exception what)) h =
    (_, refl, (omega arith, inr (refl, refl)))
execute_plugin-IsCoherent (throws other_exception) h = (_, refl, (omega arith, inr (refl, refl)))
execute_plugin-IsCoherent undefined h = absurd (h refl)

-- ===== src/Samples/Core.antt =====
-- The common part, check_negate and check_dummy at concrete inputs.
use netmon_plugins.Cpp.Result.{returns, throws, std_exception}
use netmon_plugins.Negate
use netmon_plugins.Negate.Laws.{
  check-inverts, check-unknown, parse_arguments-plain, parse_arguments-replaced,
}
use netmon_plugins.Plugin.{
  exit_status, critical, unknown, PluginResult, print_result, Run, execute_plugin,
}
use netmon_plugins.Plugin.Args.{configured}
use netmon_plugins.Plugin.Report.{
  IsCoherent, status_of_line, status_of_line-print_result, execute_plugin-IsCoherent,
}
use netmon_plugins.Prelude.{◌≡◌, true, false, inl, refl, arith, [], ◌∷◌, ◌++◌, some}
use netmon_plugins.Prelude.Text.{codes, text_eq}

abbrev disk_full : PluginResult
disk_full = record { code = critical; message = codes "disk full"; perfdata = codes "used=99%" }

disk_full_line : print_result disk_full ≡ codes "CRITICAL: disk full | used=99%" ++ 10 ∷ []
unfolding print_result
disk_full_line = refl

status_of_line-print_result_example : status_of_line (print_result disk_full) ≡ some critical
status_of_line-print_result_example = status_of_line-print_result disk_full

execute_plugin-IsCoherent_example :
    (run : Run) × (execute_plugin (throws (std_exception (codes "boom"))) ≡ returns run)
    × IsCoherent run
execute_plugin-IsCoherent_example =
    execute_plugin-IsCoherent (throws (std_exception (codes "boom"))) (λ p. ground arith)

abbrev ping : Negate.Config
ping = record {
  command = codes "./check_ping";
  args = codes "-H" ∷ codes "a" ∷ [];
  in_command = true;
}

-- A plugin that finds a critical state.
check-inverts_example :
    (r : PluginResult) × (Negate.check (λ line. 512) ping ≡ returns r) × (exit_status r.code ≡ 0)
check-inverts_example =
    check-inverts (λ line. 512) ping 2 0 false (λ p. ground arith) (ground arith) (ground arith)
      refl

-- A command that signal 9 ends.
check-unknown_example :
    (r : PluginResult) × (Negate.check (λ line. 9) ping ≡ returns r) × (r.code ≡ unknown)
check-unknown_example = check-unknown (λ line. 9) ping (inl (λ p. ground arith))

parse_arguments-plain_example :
    Negate.parse_arguments (codes "ping" ∷ codes "-n" ∷ [])
    ≡ returns
        (configured (record { command = codes "ping"; args = codes "-n" ∷ []; in_command = true }))
unfolding text_eq
parse_arguments-plain_example =
    parse_arguments-plain (codes "ping") (codes "-n" ∷ []) (refl, refl) ((refl, refl), tt)

-- `check_negate ping -c 5` runs the command `5`.
parse_arguments-replaced_example :
    Negate.parse_arguments (codes "ping" ∷ codes "-c" ∷ codes "5" ∷ [])
    ≡ returns (configured (record { command = codes "5"; args = []; in_command = true }))
unfolding text_eq
parse_arguments-replaced_example =
    parse_arguments-replaced (codes "ping") (codes "5") [] (refl, refl) tt

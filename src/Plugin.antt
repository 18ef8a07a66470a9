-- ===== src/Plugin.antt =====
-- src/common/plugin.cpp and include/netmon/plugin.hpp: exit codes, results, and the way a plugin's
-- `main` turns a check into a line of output and an exit status.
pub mod Report
pub mod Args
use netmon_plugins.Cpp.Result.{
  Result, returns, throws, undefined, Exception, std_exception, other_exception,
}
use netmon_plugins.Prelude.{
  ℕ, ◌≡◌, refl, Bool, true, false, List, [], ◌∷◌, ◌++◌, if◌then◌else◌, is_empty, Option, none, some,
}
use netmon_plugins.Prelude.Text.{Bytes, codes, strip_prefix}

pub data ExitCode : Type 0 where
  ok warning critical unknown : ExitCode

-- `static_cast<int>(code)`
abbrev pub exit_status : ExitCode → ℕ
exit_status ok = 0
exit_status warning = 1
exit_status critical = 2
exit_status unknown = 3

pub record PluginResult : Type 0 where
  pub code : ExitCode
  pub message : Bytes
  pub perfdata : Bytes

-- `PluginResult(code, message)`: the performance data is empty by default.
abbrev pub plain_result : ExitCode → Bytes → PluginResult
plain_result c m = record { code = c; message = m; perfdata = [] }

unfoldable pub exit_code_to_string : ExitCode → Bytes
exit_code_to_string ok = codes "OK"
exit_code_to_string warning = codes "WARNING"
exit_code_to_string critical = codes "CRITICAL"
exit_code_to_string unknown = codes "UNKNOWN"

-- What `printResult` writes to `std::cout`.
unfoldable pub print_result : PluginResult → Bytes
unfolding exit_code_to_string
print_result r =
    exit_code_to_string r.code
    ++ (codes ": "
        ++ (r.message
            ++ ((if is_empty r.perfdata then [] else codes " | " ++ r.perfdata) ++ codes "\n")))

-- A finished process: both output streams and the exit status.
pub record Run : Type 0 where
  pub out : Bytes
  pub err : Bytes
  pub status : ℕ

-- `executePlugin`, over what `plugin.check()` does: both handlers report on `std::cerr`.
unfoldable pub execute_plugin : Result PluginResult → Result Run
unfolding print_result
execute_plugin (returns r) =
    returns (record { out = print_result r; err = []; status = exit_status r.code })
execute_plugin (throws (std_exception what)) = returns (record {
  out = [];
  err = codes "UNKNOWN: Plugin error - " ++ (what ++ codes "\n");
  status = exit_status unknown;
})
execute_plugin (throws other_exception) = returns (record {
  out = [];
  err = codes "UNKNOWN: Unknown plugin error\n";
  status = exit_status unknown;
})
execute_plugin undefined = undefined

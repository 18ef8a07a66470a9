-- ===== src/Samples/Counts.antt =====
-- check_file_count at concrete inputs.
use netmon_plugins.Cpp.Convert.{stoi, stoi_error}
use netmon_plugins.Cpp.Decimal.{is_digit}
use netmon_plugins.Cpp.Result.{returns, undefined}
use netmon_plugins.FileCount.Check.{Config, options_of, check, parse_arguments}
use netmon_plugins.FileCount.Check.Laws.{
  wanted, render, parse_arguments-render, run_main-parse_arguments,
}
use netmon_plugins.FileCount.Tree.{
  Node, Entries, file, directory, nil, entry, count_files, counted_files,
}
use netmon_plugins.FileCount.Tree.Listing.{kept, listing, is_wanted, counted_files-listed}
use netmon_plugins.FileCount.Wildcard.{matches_pattern}
use netmon_plugins.FileCount.Wildcard.Globs.{Globs, matches_pattern_iff}
use netmon_plugins.FileCount.Wildcard.Limits.{
  HasPrefix, matches_pattern-suffix_iff, matches_pattern-prefix_iff,
}
use netmon_plugins.Plugin.{ok}
use netmon_plugins.Plugin.Args.{configured, run_main, terminated}
use netmon_plugins.Prelude.{
  ◌≡◌, ◌↔◌, ◌-◌, ◌^◌, leb, if◌then◌else◌, refl, arith, true, false, [], ◌∷◌, ◌++◌, Option, some,
  pos, length, Lacks,
}
use netmon_plugins.Prelude.Text.{Bytes, codes, text_eq}
use netmon_plugins.Threshold.{upper_severity}

-- `a.txt`, and a directory with `b.txt` in it.
abbrev spool : Entries
spool =
    entry (codes "a.txt") file
      (entry (codes "old") (directory (entry (codes "b.txt") file nil)) nil)

abbrev config : Config
config = record {
  directory = codes "/spool";
  pattern = codes "*.txt";
  recursive = true;
  warning_count = pos 3;
  critical_count = pos 5;
  count_directories = false;
}

abbrev disk : Bytes → Option Node
disk path = some (directory spool)

counted : count_files (options_of config) (directory spool) ≡ pos 2
unfolding count_files matches_pattern text_eq
counted = refl

counted_files-listed_example : counted_files (options_of config) (directory spool) ≡ (
    if leb (length (kept (is_wanted (options_of config)) (listing true spool))) (2 ^ 31 - 1)
    then returns (pos (length (kept (is_wanted (options_of config)) (listing true spool))))
    else undefined)
counted_files-listed_example = counted_files-listed (options_of config) spool

few : upper_severity (pos 3) (pos 5) (wanted config spool) ≡ ok
unfolding upper_severity matches_pattern text_eq listing
few = refl

parse_arguments-render_example : parse_arguments (render config) ≡ returns (configured config)
parse_arguments-render_example = parse_arguments-render config refl refl

matches_pattern_iff_example :
    (matches_pattern (codes "log1") (codes "log?") ≡ true) ↔ Globs (codes "log?") (codes "log1")
matches_pattern_iff_example =
    matches_pattern_iff (codes "log1") (codes "log?") (λ p. ground arith) (ground arith)

matches_pattern-suffix_iff_example : (matches_pattern (codes "a.txt") (codes "*.txt") ≡ true) ↔ (
    (a : Bytes) × (r : Bytes) × (codes "a.txt" ≡ a ++ b'.' ∷ r)
    × Lacks b'.' a
    × Globs (codes "txt") r)
matches_pattern-suffix_iff_example =
    matches_pattern-suffix_iff (codes "a.txt") (codes "txt") b'.' (λ p. ground arith)
      (λ p. ground arith) (ground arith)

-- `core` and `core*`.
matches_pattern-prefix_iff_example :
    (matches_pattern (codes "core") (codes "core*") ≡ true)
    ↔ HasPrefix (codes "core") (codes "core")
matches_pattern-prefix_iff_example =
    matches_pattern-prefix_iff (codes "core") (codes "core") (ground arith)

-- `check_file_count -w many`
run_main-parse_arguments_example :
    run_main (codes "usage") (parse_arguments (codes "-w" ∷ codes "many" ∷ [])) (check disk)
    ≡ terminated stoi_error
unfolding stoi is_digit
run_main-parse_arguments_example =
    run_main-parse_arguments (codes "usage") (codes "many") [] disk stoi_error refl

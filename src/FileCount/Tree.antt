-- ===== src/FileCount/Tree.antt =====
-- `countFiles` of plugins/file_count/check_file_count.cpp (its POSIX branch). What `opendir`, `readdir` and
-- `stat` report is a tree: a directory lists its entries in the order of `readdir`, and one that cannot be
-- opened is marked. Links that make a cycle have no such tree.
pub mod Listing
use netmon_plugins.Cpp.Convert.{summed_int}
use netmon_plugins.Cpp.Result.{Result}
use netmon_plugins.FileCount.Wildcard.{matches_pattern}
use netmon_plugins.Prelude.{
  ℕ, ◌+◌, Bool, true, false, ◌&&◌, ◌||◌, not, if◌then◌else◌, ℤ, pos, negsuc, minus_one, pos_part,
}
use netmon_plugins.Prelude.Text.{Bytes, codes, text_eq}

mutual
  pub data Node : Type 0 where
    -- anything that `S_ISDIR` is false of
    file : Node
    unreadable : Node
    directory : Entries → Node

  pub data Entries : Type 0 where
    nil : Entries
    entry : Bytes → Node → Entries → Entries

-- `isDirectory`, at an entry that exists.
abbrev pub is_directory : Node → Bool
is_directory file = false
is_directory unreadable = true
is_directory (directory es) = true

-- `name == "." || name == ".."`
abbrev pub is_dots : Bytes → Bool
is_dots name = text_eq name (codes ".") || text_eq name (codes "..")

-- `if (subCount >= 0) count += subCount;`
abbrev pub added : ℤ → ℕ
added sub_count = pos_part sub_count

-- The options that stay the same through the recursion.
pub record Options : Type 0 where
  pub pattern : Bytes
  pub recursive : Bool
  pub count_directories : Bool

-- `(!isDir || countDirs) && matchesPattern(name, pat)`
abbrev pub is_counted : Options → Bytes → Node → Bool
is_counted o name node =
    (not (is_directory node) || o.count_directories) && matches_pattern name o.pattern

-- `countFiles` without the limit of its `int`, at an opened directory, whose loop body is `count_entries`; -1 if
-- `opendir` fails.
unfoldable mutual
  pub count_files : Options → Node → ℤ
  count_files o file = minus_one
  count_files o unreadable = minus_one
  count_files o (directory es) = pos (count_entries o es)

  pub count_entries : Options → Entries → ℕ
  count_entries o nil = 0
  count_entries o (entry name node es) =
      let sub_count = count_files o node in
      let rest = count_entries o es in
      if is_dots name
      then rest
      else (if is_directory node && o.recursive then added sub_count else 0)
        + (if is_counted o name node then 1 else 0)
        + rest

-- `countFiles`. No count on the way is larger than the last one, so `int count` overflows exactly if that does not fit.
unfoldable pub counted_files : Options → Node → Result ℤ
counted_files o node = summed_int (count_files o node)

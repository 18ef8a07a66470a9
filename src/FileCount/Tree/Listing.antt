-- ===== src/FileCount/Tree/Listing.antt =====
-- A listing of the tree that `countFiles` walks, with no order of the walk in it, and the count against it.
use netmon_plugins.FileCount.Tree.{
  Node, Entries, file, unreadable, directory, nil, entry, is_directory, is_dots, added, Options,
  is_counted, count_files, count_entries, counted_files,
}
use netmon_plugins.Cpp.Convert.{summed_int}
use netmon_plugins.Cpp.Result.{returns, undefined}
use netmon_plugins.FileCount.Wildcard.{matches_pattern}
use netmon_plugins.Prelude.{
  ◌+◌, ◌-◌, ◌^◌, ◌==◌, ◌&&◌, ltb, leb, ◌≤◌, ◌≡◌, refl, Bool, true, false, if◌then◌else◌, pos, List,
  [], ◌∷◌, ◌++◌, length, ap, arith,
}
use netmon_plugins.Prelude.Text.{Bytes, text_eq}

abbrev pub Listing : Type 0
Listing = List (Bytes × Node)

-- One dot or two: the directory itself and its parent.
abbrev pub only_dots : Bytes → Bool
only_dots [] = true
only_dots (c ∷ name) = c == b'.' && only_dots name

abbrev pub is_special : Bytes → Bool
is_special name = only_dots name && ltb 0 (length name) && ltb (length name) 3

special-dots : (name : Bytes) → is_dots name ≡ is_special name
unfolding text_eq
special-dots [] = refl
special-dots (a ∷ []) = ground arith
special-dots (a ∷ b ∷ []) = ground arith
special-dots (a ∷ b ∷ c ∷ name) = ground arith

-- What the options ask for: files, and directories if these count, whose name has the pattern.
abbrev pub is_wanted : Options → Bytes → Node → Bool
is_wanted o name file = matches_pattern name o.pattern
is_wanted o name node = o.count_directories && matches_pattern name o.pattern

wanted-counted :
    (o : Options) (name : Bytes) (node : Node) → is_counted o name node ≡ is_wanted o name node
wanted-counted o name file = refl
wanted-counted o name unreadable = refl
wanted-counted o name (directory es) = refl

-- All entries below a directory, those of its readable subdirectories too where `deep` is true.
unfoldable mutual
  pub below : Bool → Node → Listing
  below deep file = []
  below deep unreadable = []
  below deep (directory es) = listing deep es

  pub listing : Bool → Entries → Listing
  listing deep nil = []
  listing deep (entry name node es) =
      let inner = below deep node in
      let rest = listing deep es in
      if is_special name then rest else (if deep then inner else []) ++ ((name, node) ∷ rest)

-- Those that a test keeps.
abbrev pub kept : (Bytes → Node → Bool) → Listing → Listing
kept test [] = []
kept test ((name, node) ∷ l) = if test name node then (name, node) ∷ kept test l else kept test l

length-kept-append :
    (test : Bytes → Node → Bool) (l m : Listing)
    → length (kept test (l ++ m)) ≡ length (kept test l) + length (kept test m)
length-kept-append test [] m = omega arith
length-kept-append test ((name, node) ∷ l) m = ground (arith, length-kept-append test l m)

below-file :
    (test : Bytes → Node → Bool) (deep : Bool) (node : Node)
    → is_directory node ≡ false
    → length (kept test (below deep node)) ≡ 0
unfolding below
below-file test deep file h = refl
below-file test deep unreadable h = refl
below-file test deep (directory es) h = cc

mutual
  unfolding count_files count_entries listing below

  added-count_files :
      (o : Options) (node : Node)
      → added (count_files o node) ≡ length (kept (is_wanted o) (below o.recursive node))
  added-count_files o file = refl
  added-count_files o unreadable = refl
  added-count_files o (directory es) = count_entries_listed o es

  count_entries_listed :
      (o : Options) (es : Entries)
      → count_entries o es ≡ length (kept (is_wanted o) (listing o.recursive es))
  count_entries_listed o nil = refl
  count_entries_listed o (entry name node es) = ground (
    arith,
    count_entries_listed o es,
    added-count_files o node,
    special-dots name,
    wanted-counted o name node,
    below-file (is_wanted o) o.recursive node,
    length-kept-append (is_wanted o) (below o.recursive node)
        ((name, node) ∷ listing o.recursive es),
  )

count_files-listed :
    (o : Options) (es : Entries)
    → count_files o (directory es) ≡ pos (length (kept (is_wanted o) (listing o.recursive es)))
unfolding count_files
count_files-listed o es = ap pos (count_entries_listed o es)

-- The count of a directory is the number of its entries that are wanted, the entries of readable subdirectories
-- among them if the search is recursive, and never `.` and `..`; a number that no `int` holds is undefined behaviour.
pub counted_files-listed :
    (o : Options) (es : Entries)
    → counted_files o (directory es) ≡ (
        if leb (length (kept (is_wanted o) (listing o.recursive es))) (2 ^ 31 - 1)
        then returns (pos (length (kept (is_wanted o) (listing o.recursive es))))
        else undefined)
unfolding counted_files summed_int
counted_files-listed o es = rw (count_files-listed o es) refl

length-kept-listing :
    (test : Bytes → Node → Bool) (es : Entries)
    → length (kept test (listing false es)) ≤ length (kept test (listing true es))
unfolding listing
length-kept-listing test nil = omega arith
length-kept-listing test (entry name node es) = ground (
  arith,
  length-kept-listing test es,
  length-kept-append test (below true node) ((name, node) ∷ listing true es),
)

-- A recursive search never counts fewer entries than a flat one.
pub count_entries-recursive_le :
    (o : Options) (es : Entries)
    → count_entries (record o { recursive = false }) es
      ≤ count_entries (record o { recursive = true }) es
count_entries-recursive_le o es = omega (
  arith,
  count_entries_listed (record o { recursive = false }) es,
  count_entries_listed (record o { recursive = true }) es,
  length-kept-listing (is_wanted o) es,
)

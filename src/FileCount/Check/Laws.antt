-- ===== src/FileCount/Check/Laws.antt =====
-- The exit code of check_file_count, and its options.
use netmon_plugins.Cpp.Convert.{fits, int_max, stoi, summed_int}
use netmon_plugins.Cpp.Decimal.{to_string}
use netmon_plugins.Cpp.Result.{Exception, Result, returns, throws, undefined}
use netmon_plugins.FileCount.Check.{
  Config, default_config, parse_argument, parse_arguments, options_of, report, check,
}
use netmon_plugins.FileCount.Tree.{
  Node, Entries, file, unreadable, directory, count_files, counted_files,
}
use netmon_plugins.FileCount.Tree.Listing.{listing, kept, is_wanted, counted_files-listed}
use netmon_plugins.Plugin.{ok, PluginResult}
use netmon_plugins.Threshold.{Meets, upper_severity, upper_severity_iff}
use netmon_plugins.Plugin.Args.{
  configured, parse_loop, parse_loop-throws, run_main, terminated, parse_loop-with_value,
  parse_loop-stoi,
}
use netmon_plugins.Prelude.{
  Bool, true, false, if◌then◌else◌, List, [], ◌∷◌, ◌++◌, ◌≡◌, refl, ◌∙◌, ap, sym, arith, is_empty,
  Bool-cases, inl, inr, ℕ, ℤ, pos, length, Option, none, some, ◌≢◌,
}
use netmon_plugins.Prelude.Text.{Bytes, codes, text_eq}

-- The options that spell a configuration.
abbrev pub render : Config → List Bytes
render c =
    codes "-d"
    ∷ c.directory
    ∷ codes "-p"
    ∷ c.pattern
    ∷ codes "-w"
    ∷ to_string c.warning_count
    ∷ codes "--critical"
    ∷ to_string c.critical_count
    ∷ ((if c.recursive then codes "-r" ∷ [] else [])
        ++ (if c.count_directories then codes "-D" ∷ [] else []))

flags :
    (c : Config) (r d : Bool)
    → parse_loop parse_argument
        (record c { recursive = false; count_directories = false })
        ((if r then codes "-r" ∷ [] else []) ++ (if d then codes "-D" ∷ [] else []))
      ≡ returns (configured (record c { recursive = r; count_directories = d }))
unfolding parse_loop parse_argument text_eq
flags c true true = refl
flags c true false = refl
flags c false true = refl
flags c false false = refl

-- Every configuration whose two limits fit an `int` is read back from the options that spell it.
pub parse_arguments-render :
    (c : Config)
    → fits int_max c.warning_count ≡ true
    → fits int_max c.critical_count ≡ true
    → parse_arguments (render c) ≡ returns (configured c)
unfolding parse_arguments parse_argument text_eq
parse_arguments-render c hw hc =
    parse_loop-with_value parse_argument _ _ _ _ _ _ refl refl
    ∙ parse_loop-with_value parse_argument _ _ _ _ _ _ refl refl
    ∙ parse_loop-stoi parse_argument _ _ c.warning_count _ _ hw refl
    ∙ parse_loop-stoi parse_argument _ _ c.critical_count _ _ hc refl
    ∙ flags c c.recursive c.count_directories

-- The number of entries that the options ask for.
abbrev pub wanted : Config → Entries → ℤ
wanted c es = pos (length (kept (is_wanted (options_of c)) (listing c.recursive es)))

report-code :
    (c : Config) (n : ℕ)
    → (report c (pos n)).code ≡ upper_severity c.warning_count c.critical_count (pos n)
unfolding report
report-code c n = ground arith

-- Where the option names a directory that can be read, the exit code is the severity of the number of its
-- wanted entries, if this number fits an `int`.
pub check-code :
    (stat : Bytes → Option Node) (c : Config) (es : Entries)
    → c.directory ≢ []
    → stat c.directory ≡ some (directory es)
    → fits int_max (wanted c es) ≡ true
    → (r : PluginResult) × (check stat c ≡ returns r)
      × (r.code ≡ upper_severity c.warning_count c.critical_count (wanted c es))
unfolding check
check-code stat c es named found small = (
  report c (wanted c es),
  ground (arith, counted_files-listed (options_of c) es),
  report-code c _,
)

returns-injective {ℓ} : {A : Type ℓ} {x y : A} → Result.returns x ≡ returns y → x ≡ y
returns-injective h = cc

fitting :
    (c : Config) (es : Entries)
    → counted_files (options_of c) (directory es) ≢ undefined
    → fits int_max (wanted c es) ≡ true
fitting c es h = ground (arith, counted_files-listed (options_of c) es)

-- What an OK result says: the path is a directory that was read, and the number of wanted entries reaches
-- neither limit that is on.
pub check-ok :
    (stat : Bytes → Option Node) (c : Config) (r : PluginResult)
    → check stat c ≡ returns r
    → r.code ≡ ok
    → (es : Entries) × (stat c.directory ≡ some (directory es))
      × (¬ Meets c.warning_count (wanted c es))
      × (¬ Meets c.critical_count (wanted c es))
check-ok stat c r h is_ok = go (stat c.directory) refl
  where
    go :
        (found : Option Node)
        → stat c.directory ≡ found
        → (es : Entries) × (stat c.directory ≡ some (directory es))
          × (¬ Meets c.warning_count (wanted c es))
          × (¬ Meets c.critical_count (wanted c es))
    go none e = absurd (unfold check report in ground arith)
    go (some file) e = absurd (unfold check report in ground arith)
    go (some unreadable) e =
        absurd (unfold check report counted_files count_files summed_int in ground arith)
    go (some (directory es)) e = elim (Bool-cases (is_empty c.directory)) [
      | inl nameless ↦ absurd (unfold check report in ground arith)
      | inr named ↦
          let small = fitting c es (unfold check in ground arith) in
          let (r', h', code) = check-code stat c es (ground arith) e small in
          let severity = upper_severity_iff c.warning_count c.critical_count (wanted c es) in
          let (below_warning, below_critical) = severity.2.0 (
            sym code
            ∙ (ap (λ (p : PluginResult). p.code) (returns-injective (sym h' ∙ h)) ∙ is_ok)) in
          (es, e, below_warning, below_critical)
    ]

-- Where the first option is `-w` and its value is none that `std::stoi` reads, the process ends by
-- `std::terminate`, without a line of output, whatever the other arguments and the file system are.
pub run_main-parse_arguments :
    (usage text : Bytes) (rest : List Bytes) (stat : Bytes → Option Node) (e : Exception)
    → stoi text ≡ throws e
    → run_main usage (parse_arguments (codes "-w" ∷ text ∷ rest)) (check stat) ≡ terminated e
unfolding run_main parse_arguments parse_argument text_eq
run_main-parse_arguments usage text rest stat e h =
    ap (λ parsed. run_main usage parsed (check stat))
      (parse_loop-throws parse_argument default_config (codes "-w") text rest _ e refl (rw h refl))

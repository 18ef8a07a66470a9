-- ===== src/Log/Growth.antt =====
-- check_log on a log that grows, and with the match inverted.
use netmon_plugins.Cpp.Convert.{fits, int_max, summed_int}
use netmon_plugins.Cpp.Result.{returns, throws, std_exception}
use netmon_plugins.Log.{Config, System, count_lines, count_matches, report, check}
use netmon_plugins.Log.Lines.{line_feed, lines, lines-append}
use netmon_plugins.Plugin.{unknown, exit_status, PluginResult, plain_result}
use netmon_plugins.Prelude.{
  ◌+◌, ◌^◌, ◌<◌, ◌≤◌, ◌≡◌, ◌≢◌, refl, Bool, true, false, List, [], ◌∷◌, ◌++◌, none, some, ℤ, pos,
  ◌≤ℤ◌, arith, length, ◌⊎◌, inl, inr, Option-cases,
}
use netmon_plugins.Prelude.Text.{Bytes, codes}
use netmon_plugins.Threshold.{upper_severity_mono}

count_lines-append :
    (invert : Bool) (search : Bytes → Bool) (xs ys : List Bytes)
    → count_lines invert search (xs ++ ys)
      ≡ count_lines invert search xs + count_lines invert search ys
unfolding count_lines
count_lines-append invert search [] ys = omega arith
count_lines-append invert search (x ∷ xs) ys = omega (arith, count_lines-append invert search xs ys)

-- The inverted search counts exactly the lines that the plain one leaves out.
pub count_lines-invert :
    (search : Bytes → Bool) (ls : List Bytes)
    → count_lines true search ls + count_lines false search ls ≡ length ls
unfolding count_lines
count_lines-invert search [] = omega arith
count_lines-invert search (x ∷ ls) = ground (arith, count_lines-invert search ls)

-- The same system, with another text in every file that opens.
abbrev pub with_contents : System → Bytes → System
with_contents sys text = record sys { contents = λ path. some text }

module _ (sys : System) (c : Config) (search : Bytes → Bool) (named : c.log_file ≢ [])
    (there : sys.accessible c.log_file ≡ true) (asked : c.pattern ≢ [])
    (compiles : sys.regex c.case_sensitive c.pattern ≡ returns search) where
  matched : Bytes → ℤ
  matched text = pos (count_lines c.invert_match search (lines text))

  check-report :
      (text : Bytes)
      → fits int_max (matched text) ≡ true
      → check (with_contents sys text) c
        ≡ returns (report (with_contents sys text) c (matched text))
  unfolding check count_matches matched summed_int
  check-report text small = ground arith

  matched_mono : (s t : Bytes) → matched (s ++ line_feed ∷ []) ≤ℤ matched (s ++ line_feed ∷ t)
  unfolding matched
  matched_mono s t = rw (lines-append s t) (
      omega
        (arith, count_lines-append c.invert_match search (lines (s ++ line_feed ∷ [])) (lines t)))

  -- Where a log that is there and a pattern that compiles are given, appending to a log whose last line is
  -- complete never makes the result less severe, as long as the lines that are counted then fit an `int`.
  pub check-append :
      (s t : Bytes)
      → count_lines c.invert_match search (lines (s ++ line_feed ∷ t)) < 2 ^ 31
      → (r : PluginResult) × (r' : PluginResult) × (check
            (with_contents sys (s ++ line_feed ∷ []))
            c
          ≡ returns r)
        × (check (with_contents sys (s ++ line_feed ∷ t)) c ≡ returns r')
        × (exit_status r.code ≤ exit_status r'.code)
  unfolding report
  check-append s t small = (
    _,
    _,
    check-report (s ++ line_feed ∷ []) (unfold matched in ground (arith, matched_mono s t)),
    check-report (s ++ line_feed ∷ t) (unfold matched in ground arith),
    upper_severity_mono c.warning_count c.critical_count _ _ (matched_mono s t),
  )

-- Where a log that is there and a pattern are given, and the log does not open or `std::regex` refuses the
-- pattern, the result is UNKNOWN.
pub check-unreadable :
    (sys : System) (c : Config) (what : Bytes)
    → c.log_file ≢ []
    → sys.accessible c.log_file ≡ true
    → c.pattern ≢ []
    → (sys.contents c.log_file ≡ none)
      ⊎ (sys.regex c.case_sensitive c.pattern ≡ throws (std_exception what))
    → (r : PluginResult) × (check sys c ≡ returns r) × (r.code ≡ unknown)
unfolding check count_matches
check-unreadable sys c what named there asked h = elim (Option-cases (sys.contents c.log_file)) [
  | inl closed ↦ (
    plain_result unknown
        (codes "Log check failed: " ++ (codes "Cannot open log file: " ++ c.log_file)),
    ground arith,
    refl,
  )
  | inr (text, opened) ↦ (
    plain_result unknown (codes "Log check failed: " ++ (codes "Invalid regex pattern: " ++ what)),
    ground arith,
    refl,
  )
]

-- ===== src/Samples/Runs.antt =====
-- Runs of `matchesPattern`, of the line reader and of the Base64 encoder.
use netmon_plugins.FileCount.Wildcard.{matches_pattern}
use netmon_plugins.HttpApi.Base64.{encode}
use netmon_plugins.Log.Lines.{lines}
use netmon_plugins.Prelude.{◌≡◌, refl, true, false, [], ◌∷◌}
use netmon_plugins.Prelude.Text.{codes}

suffix_pattern : matches_pattern (codes "notes.txt") (codes "*.txt") ≡ true
unfolding matches_pattern
suffix_pattern = refl

two_dots : matches_pattern (codes "notes.old.txt") (codes "*.txt") ≡ false
unfolding matches_pattern
two_dots = refl

nothing_left_for_the_star : matches_pattern (codes "core") (codes "core*") ≡ false
unfolding matches_pattern
nothing_left_for_the_star = refl

three_lines : lines (codes "a\n\nb") ≡ codes "a" ∷ [] ∷ codes "b" ∷ []
unfolding lines
three_lines = refl

whole_groups : encode (codes "ab:xyz") ≡ codes "YWI6eHl6"
unfolding encode
whole_groups = refl

-- The padding is `A` where RFC 4648 has `=`: the standard text is "YTpi" for "a:b" and "YWI6Yw==" for "ab:c".
two_over : encode (codes "ab:c") ≡ codes "YWI6YwAA"
unfolding encode
two_over = refl

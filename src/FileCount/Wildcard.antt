-- ===== src/FileCount/Wildcard.antt =====
-- `matchesPattern` of plugins/file_count/check_file_count.cpp. A position in a string is the rest of the
-- string behind it, and the two loops are recursions on those rests.
pub mod Globs
pub mod Limits
use netmon_plugins.Prelude.{
  ℕ, Bool, true, false, [], ◌∷◌, ◌||◌, ◌==◌, if◌then◌else◌, is_empty, ◌≡◌, refl,
}
use netmon_plugins.Prelude.Text.{Bytes, codes}

abbrev pub star : ℕ
star = b'*'

abbrev pub any : ℕ
any = b'?'

-- `while (filePos < filename.length() && filename[filePos] != pat[patPos]) filePos++;`
pub skip_to : ℕ → Bytes → Bytes
skip_to c [] = []
skip_to c (x ∷ name) = if x == c then x ∷ name else skip_to c name

-- The outer loop and the final test, at a pattern and a name that are both read from here on.
pub match_rest : Bytes → Bytes → Bool
match_rest [] name = is_empty name
match_rest (p ∷ pat) [] = false
match_rest (p ∷ []) (x ∷ name) =
    if p == star then true else if p == any || p == x then is_empty name else false
match_rest (p ∷ q ∷ pat) (x ∷ name) =
    let behind = skip_to q (x ∷ name) in
    let resume = match_rest (q ∷ pat) behind in
    let onward = match_rest (q ∷ pat) name in
    if p == star
    then (if is_empty behind then false else resume)
    else if p == any || p == x
    then onward
    else false

unfoldable pub matches_pattern : Bytes → Bytes → Bool
unfolding match_rest skip_to
matches_pattern name pat = if is_empty pat then true else match_rest pat name

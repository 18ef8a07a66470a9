-- ===== src/Log/Lines.antt =====
-- `while (std::getline(file, line))`: the lines of a text. A last line without a line feed counts, an empty
-- one behind the last line feed does not.
use netmon_plugins.Prelude.{ℕ, ◌≡◌, ◌≢◌, refl, List, [], ◌∷◌, ◌++◌, ◌==◌, if◌then◌else◌, arith}
use netmon_plugins.Prelude.Text.{Bytes}

abbrev pub line_feed : ℕ
line_feed = 10

-- A byte in front of the first line.
abbrev pub extended : ℕ → List Bytes → List Bytes
extended c [] = (c ∷ []) ∷ []
extended c (line ∷ rest) = (c ∷ line) ∷ rest

unfoldable pub lines : Bytes → List Bytes
lines [] = []
lines (c ∷ text) = let rest = lines text in if c == line_feed then [] ∷ rest else extended c rest

extended-nonempty : (c : ℕ) (ls : List Bytes) → extended c ls ≢ []
extended-nonempty c [] = cc
extended-nonempty c (line ∷ rest) = cc

lines-nonempty : (c : ℕ) (s : Bytes) → lines (c ∷ s) ≢ []
unfolding lines
lines-nonempty c s = ground (arith, extended-nonempty c (lines s))

lines-ended : (s : Bytes) → lines (s ++ line_feed ∷ []) ≢ []
lines-ended [] = lines-nonempty line_feed []
lines-ended (c ∷ s) = lines-nonempty c (s ++ line_feed ∷ [])

extended-append :
    (c : ℕ) (xs ys : List Bytes) → xs ≢ [] → extended c (xs ++ ys) ≡ extended c xs ++ ys
extended-append c [] ys h = absurd (h refl)
extended-append c (x ∷ xs) ys h = refl

-- Behind a line feed the lines start anew.
pub lines-append :
    (s t : Bytes) → lines (s ++ line_feed ∷ t) ≡ lines (s ++ line_feed ∷ []) ++ lines t
unfolding lines
lines-append [] t = refl
lines-append (c ∷ s) t = ground (
  arith,
  lines-append s t,
  extended-append c (lines (s ++ line_feed ∷ [])) (lines t) (lines-ended s),
)

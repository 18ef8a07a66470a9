-- ===== src/Prelude/Text.antt =====
-- `std::string` as a list of bytes: literals, equality, and the searches that the plugins use.
use Prim.Native.Char.{code}
use Prim.Native.Nat.{ℕ}
use Prim.Native.String.{String}
use mathlib.Core.Bool.{Bool, true, false, ◌&&◌}
use mathlib.Core.List.{List, [], ◌∷◌, ◌++◌}
use mathlib.Core.Logic.{◌↔◌}
use mathlib.Core.Option.{Option, none, some}
use mathlib.Core.Path.{◌≡◌, refl}
use native.Mathlib.Omega.{arith}
use netmon_plugins.Prelude.Tests.{◌==◌, if◌then◌else◌}

abbrev pub Bytes : Type 0
Bytes = List ℕ

-- The bytes of an ASCII literal.
abbrev pub codes : String → Bytes
codes String.[] = []
codes (String.◌∷◌ c s) = code c ∷ codes s

-- `a == b`, and `strcmp(a, b) == 0`.
unfoldable pub text_eq : Bytes → Bytes → Bool
text_eq [] [] = true
text_eq (x ∷ xs) (y ∷ ys) = (x == y) && text_eq xs ys
text_eq _ _ = false

pub text_eq_refl : (s : Bytes) → text_eq s s ≡ true
unfolding text_eq
text_eq_refl [] = refl
text_eq_refl (x ∷ xs) = ground (arith, text_eq_refl xs)

pub text_eq_iff : (s t : Bytes) → (text_eq s t ≡ true) ↔ (s ≡ t)
unfolding text_eq
text_eq_iff [] [] = ground arith
text_eq_iff [] (y ∷ ys) = ground arith
text_eq_iff (x ∷ xs) [] = ground arith
text_eq_iff (x ∷ xs) (y ∷ ys) = ground (arith, text_eq_iff xs ys)

-- The text begins with `p`; what stands behind it.
unfoldable pub strip_prefix : Bytes → Bytes → Option Bytes
strip_prefix [] s = some s
strip_prefix (x ∷ p) [] = none
strip_prefix (x ∷ p) (y ∷ s) = if x == y then strip_prefix p s else none

-- `s.find(needle)`: the text before the first occurrence and the text behind it.
unfoldable pub split_at_first : Bytes → Bytes → Option (Bytes × Bytes)
split_at_first needle [] = elim (strip_prefix needle []) [ some r ↦ some ([], r) | none ↦ none ]
split_at_first needle (c ∷ s) =
    let later = split_at_first needle s in
    elim (strip_prefix needle (c ∷ s)) [
      | some r ↦ some ([], r)
      | none ↦ elim later [ some (a, r) ↦ some (c ∷ a, r) | none ↦ none ]
    ]

-- `s.find(needle) != std::string::npos`.
unfoldable pub contains : Bytes → Bytes → Bool
contains needle s = elim (split_at_first needle s) [ some r ↦ true | none ↦ false ]

-- What a chain of `<<` writes.
abbrev pub concat : List Bytes → Bytes
concat [] = []
concat (t ∷ ts) = t ++ concat ts

-- ===== src/Json/Braces.antt =====
-- `extractJsonNestedValue` of src/common/json_utils.cpp: which part of the text is the nested object.
use netmon_plugins.Json.{take_object}
use netmon_plugins.Prelude.Text.{Bytes}
use netmon_plugins.Prelude.{ℕ, suc, ◌≡◌, ◌≢◌, refl, [], ◌∷◌, ◌++◌, some, arith, append_assoc}

-- The depth behind a text that opens and closes braces without going below its start.
pub data Nested : Bytes → Type 0 where
  empty : Nested []
  other : {c : ℕ} {s : Bytes} → c ≢ b'{' → c ≢ b'}' → Nested s → Nested (c ∷ s)
  braces : {s t : Bytes} → Nested s → Nested t → Nested (b'{' ∷ (s ++ b'}' ∷ t))

take_object-other :
    (depth c : ℕ) (s t : Bytes)
    → c ≢ b'{'
    → c ≢ b'}'
    → take_object (suc depth) s ≡ some t
    → take_object (suc depth) (c ∷ s) ≡ some (c ∷ t)
unfolding take_object
take_object-other depth c s t left right h = ground arith

take_object-opening :
    (depth : ℕ) (s t : Bytes)
    → take_object (suc (suc depth)) s ≡ some t
    → take_object (suc depth) (b'{' ∷ s) ≡ some (b'{' ∷ t)
unfolding take_object
take_object-opening depth s t h = rw h refl

take_object-closing :
    (depth : ℕ) (s t : Bytes)
    → take_object depth s ≡ some t
    → take_object (suc depth) (b'}' ∷ s) ≡ some (b'}' ∷ t)
unfolding take_object
take_object-closing depth s t h = rw h refl

-- A nested text is passed over as a whole.
passed_over :
    (depth : ℕ) {s : Bytes}
    → Nested s
    → (rest t : Bytes) → take_object (suc depth) rest ≡ some t
    → take_object (suc depth) (s ++ rest) ≡ some (s ++ t)
passed_over depth empty rest t h = h
passed_over depth (other {c = c} {s = s} left right n) rest t h =
    take_object-other depth c (s ++ rest) (s ++ t) left right (passed_over depth n rest t h)
passed_over depth (braces {s = s} {t = t'} n n') rest t h =
    take_object-opening depth ((s ++ b'}' ∷ t') ++ rest) ((s ++ b'}' ∷ t') ++ t) (
      rw (append_assoc s (b'}' ∷ t') rest, append_assoc s (b'}' ∷ t') t)
        (passed_over (suc depth) n (b'}' ∷ (t' ++ rest)) (b'}' ∷ (t' ++ t))
          (take_object-closing (suc depth) (t' ++ rest) (t' ++ t) (passed_over depth n' rest t h))))

-- Behind an opening brace: of a text whose braces match, with the closing brace and anything behind it, exactly
-- the text and its closing brace are taken.
pub take_object-Nested :
    {s : Bytes}
    → Nested s
    → (rest : Bytes) → take_object 1 (s ++ b'}' ∷ rest) ≡ some (s ++ b'}' ∷ [])
unfolding take_object
take_object-Nested n rest =
    passed_over 0 n (b'}' ∷ rest) (b'}' ∷ []) (take_object-closing 0 rest [] refl)

-- ===== src/Prelude/Search.antt =====
-- Laws of the searches in `Prelude.Text`.
use netmon_plugins.Prelude.{
  ℕ, ◌≤◌, ◌≡◌, refl, true, [], ◌∷◌, ◌++◌, none, some, arith, length, length-append, Lacks,
  Option-cases, inl, inr, append_assoc, ap,
}
use netmon_plugins.Prelude.Text.{Bytes, strip_prefix, split_at_first, contains}

pub strip_prefix-append : (p r : Bytes) → strip_prefix p (p ++ r) ≡ some r
unfolding strip_prefix
strip_prefix-append [] r = refl
strip_prefix-append (x ∷ p) r = ground (arith, strip_prefix-append p r)

-- A text that has the prefix is the prefix and the rest.
pub strip_prefix_sound : (p s r : Bytes) → strip_prefix p s ≡ some r → s ≡ p ++ r
unfolding strip_prefix
strip_prefix_sound [] s r h = cc
strip_prefix_sound (x ∷ p) [] r h = cc
strip_prefix_sound (x ∷ p) (y ∷ s) r h = ground (arith, strip_prefix_sound p s r)

-- Text behind a text that is long enough does not change whether the prefix is there.
strip_prefix-none :
    (p s r : Bytes) → length p ≤ length s → strip_prefix p s ≡ none → strip_prefix p (s ++ r) ≡ none
unfolding strip_prefix
strip_prefix-none [] s r h e = cc
strip_prefix-none (x ∷ p) [] r h e = absurd (omega arith)
strip_prefix-none (x ∷ p) (y ∷ s) r h e = ground (arith, strip_prefix-none p s r)

-- The needle at the front is the first.
pub split_found :
    (needle s r : Bytes) → strip_prefix needle s ≡ some r → split_at_first needle s ≡ some ([], r)
unfolding split_at_first
split_found needle [] r h = ground arith
split_found needle (c ∷ s) r h = ground arith

pub split_later :
    (needle s a r : Bytes) (c : ℕ)
    → strip_prefix needle (c ∷ s) ≡ none
    → split_at_first needle s ≡ some (a, r)
    → split_at_first needle (c ∷ s) ≡ some (c ∷ a, r)
unfolding split_at_first
split_later needle s a r c h k = ground arith

-- What stands before the place, the needle and what stands behind it make the text.
pub split_at_first_sound :
    (needle s a r : Bytes) → split_at_first needle s ≡ some (a, r) → s ≡ a ++ (needle ++ r)
unfolding split_at_first
split_at_first_sound needle [] a r h = elim (Option-cases (strip_prefix needle [])) [
  | inl e ↦ absurd (ground arith)
  | inr (r', e) ↦ ground (arith, strip_prefix_sound needle [] r' e)
]
split_at_first_sound needle (c ∷ s) a r h = elim (Option-cases (strip_prefix needle (c ∷ s))) [
  | inr (r', e) ↦ ground (arith, strip_prefix_sound needle (c ∷ s) r' e)
  | inl e ↦ elim (Option-cases (split_at_first needle s)) [
    | inl none_later ↦ absurd (ground arith)
    | inr (b, later) ↦ ground (arith, split_at_first_sound needle s b.0 b.1)
  ]
]

split_rest :
    (needle a : Bytes) (c : ℕ)
    → split_at_first needle (c ∷ (a ++ needle)) ≡ some (c ∷ a, [])
    → (strip_prefix needle (c ∷ (a ++ needle)) ≡ none)
      × (split_at_first needle (a ++ needle) ≡ some (a, []))
unfolding split_at_first
split_rest needle a c h = elim (Option-cases (strip_prefix needle (c ∷ (a ++ needle)))) [
  | inr (r, e) ↦ absurd (ground arith)
  | inl e ↦ elim (Option-cases (split_at_first needle (a ++ needle))) [
    | inl none_later ↦ absurd (ground arith)
    | inr (b, later) ↦ (e, ground arith)
  ]
]

-- The first place of the needle stays the first if text is put behind it.
pub split_at_first-append :
    (needle a r : Bytes)
    → split_at_first needle (a ++ needle) ≡ some (a, [])
    → split_at_first needle (a ++ (needle ++ r)) ≡ some (a, r)
split_at_first-append needle [] r h = split_found needle _ r (strip_prefix-append needle r)
split_at_first-append needle (c ∷ a) r h =
    let (not_here, later) = split_rest needle a c h in
    split_later needle (a ++ (needle ++ r)) a r c
      (rw (← append_assoc a needle r) (
        strip_prefix-none needle (c ∷ (a ++ needle)) r (omega (arith, length-append {0} a needle))
          not_here))
      (split_at_first-append needle a r later)

-- A text has another one somewhere in it.
abbrev pub Has : Bytes → Bytes → Type 0
Has needle s = (a : Bytes) × (b : Bytes) × (s ≡ a ++ (needle ++ b))

found_behind : (needle s : Bytes) (c : ℕ) → Has needle s → Has needle (c ∷ s)
found_behind needle s c (a, b, e) = (c ∷ a, b, ap (λ l. c ∷ l) e)

pub contains-Has : (needle s : Bytes) → contains needle s ≡ true → Has needle s
unfolding contains split_at_first
contains-Has needle [] h = elim (Option-cases (strip_prefix needle [])) [
  | inl e ↦ absurd (ground arith)
  | inr (r, e) ↦ ([], r, strip_prefix_sound needle [] r e)
]
contains-Has needle (c ∷ s) h = elim (Option-cases (strip_prefix needle (c ∷ s))) [
  | inr (r, e) ↦ ([], r, strip_prefix_sound needle (c ∷ s) r e)
  | inl e ↦ found_behind needle s c (contains-Has needle s (ground arith))
]

-- A single byte is found behind the text that lacks it.
pub split_at_first-byte :
    (b : ℕ) (a r : Bytes) → Lacks b a → split_at_first (b ∷ []) (a ++ b ∷ r) ≡ some (a, r)
unfolding split_at_first strip_prefix
split_at_first-byte b [] r h = ground arith
split_at_first-byte b (x ∷ a) r (hx, h) = ground (arith, split_at_first-byte b a r h)

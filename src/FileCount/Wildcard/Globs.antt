-- ===== src/FileCount/Wildcard/Globs.antt =====
-- The usual meaning of the wildcards, with no order of search in it, and `matchesPattern` against it.
use netmon_plugins.FileCount.Wildcard.{star, any, skip_to, match_rest, matches_pattern}
use netmon_plugins.Prelude.{
  ℕ, true, false, [], ◌∷◌, ◌||◌, ◌==◌, ◌≡◌, ◌≢◌, ◌↔◌, ◌⊎◌, inl, inr, refl, arith, Lacks, Bool-cases,
}
use netmon_plugins.Prelude.Text.{Bytes}

-- A pattern byte other than a star takes the name's byte.
abbrev pub Takes : ℕ → ℕ → Type 0
Takes p x = (p ≢ star) × ((p ≡ any) ⊎ (p ≡ x))

pub data Globs : Bytes → Bytes → Type 0 where
  end : Globs [] []
  one : {p x : ℕ} {pat name : Bytes} → Takes p x → Globs pat name → Globs (p ∷ pat) (x ∷ name)
  leave : {p : ℕ} {pat name : Bytes} → p ≡ star → Globs pat name → Globs (p ∷ pat) name
  take : {p x : ℕ} {pat name : Bytes} → p ≡ star → Globs (p ∷ pat) name → Globs (p ∷ pat) (x ∷ name)

Globs-star : {p : ℕ} (name : Bytes) → p ≡ star → Globs (p ∷ []) name
Globs-star [] h = leave h end
Globs-star (x ∷ name) h = take h (Globs-star name h)

Globs-skip_to :
    {p : ℕ} (c : ℕ) (pat name : Bytes)
    → p ≡ star
    → Globs pat (skip_to c name)
    → Globs (p ∷ pat) name
unfolding skip_to
Globs-skip_to c pat [] h g = leave h g
Globs-skip_to c pat (x ∷ name) h g = elim (Bool-cases (x == c)) [
  | inl found ↦ leave h (rw found at g)
  | inr other ↦ take h (Globs-skip_to c pat name h (rw other at g))
]

Takes-of_tests : (p x : ℕ) → (p == star) ≡ false → (p == any || p == x) ≡ true → Takes p x
Takes-of_tests p x h k = (ground arith, ground arith)

-- What the matcher accepts from a position on, the pattern really describes.
match_rest_sound : (pat name : Bytes) → match_rest pat name ≡ true → Globs pat name
unfolding match_rest
match_rest_sound [] [] h = end
match_rest_sound [] (x ∷ name) h = cc
match_rest_sound (p ∷ pat) [] h = cc
match_rest_sound (p ∷ []) (x ∷ name) h = elim (Bool-cases (p == star)) [
  | inl s ↦ Globs-star (x ∷ name) (ground arith)
  | inr s ↦ elim (Bool-cases (p == any || p == x)) [
    | inl t ↦ one (Takes-of_tests p x s t) (match_rest_sound [] name (rw (s, t) at h))
    | inr t ↦ absurd (ground arith)
  ]
]
match_rest_sound (p ∷ q ∷ pat) (x ∷ name) h = elim (Bool-cases (p == star)) [
  | inl s ↦
      Globs-skip_to q (q ∷ pat) (x ∷ name) (ground arith)
        (match_rest_sound (q ∷ pat) (skip_to q (x ∷ name)) (ground arith))
  | inr s ↦ elim (Bool-cases (p == any || p == x)) [
    | inl t ↦ one (Takes-of_tests p x s t) (match_rest_sound (q ∷ pat) name (rw (s, t) at h))
    | inr t ↦ absurd (ground arith)
  ]
]

-- Without a star the matcher accepts all that the pattern describes.
match_rest_complete :
    {pat name : Bytes} → Globs pat name → Lacks star pat → match_rest pat name ≡ true
unfolding match_rest
match_rest_complete end lacks = refl
match_rest_complete (one {pat = []} t end) lacks = ground arith
match_rest_complete (one {pat = q ∷ pat} t g) lacks = ground (arith, match_rest_complete g lacks.1)
match_rest_complete (leave e g) lacks = absurd (lacks.0 e)
match_rest_complete (take e g) lacks = absurd (lacks.0 e)

-- A pattern that is not empty accepts only names that it describes.
pub matches_pattern_sound :
    (name pat : Bytes) → pat ≢ [] → matches_pattern name pat ≡ true → Globs pat name
unfolding matches_pattern
matches_pattern_sound name [] nonempty h = absurd (nonempty refl)
matches_pattern_sound name (p ∷ pat) nonempty h = match_rest_sound (p ∷ pat) name h

-- A pattern with no star in it, and with at least one byte, accepts exactly the names that it describes.
pub matches_pattern_iff :
    (name pat : Bytes)
    → pat ≢ []
    → Lacks star pat
    → (matches_pattern name pat ≡ true) ↔ Globs pat name
unfolding matches_pattern
matches_pattern_iff name [] nonempty lacks = absurd (nonempty refl)
matches_pattern_iff name (p ∷ pat) nonempty lacks =
    (match_rest_sound (p ∷ pat) name, λ g. match_rest_complete g lacks)

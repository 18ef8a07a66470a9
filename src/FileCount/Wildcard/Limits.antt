-- ===== src/FileCount/Wildcard/Limits.antt =====
-- What `matchesPattern` does with the star of the two common forms of pattern, `*.txt` and `core*`.
use netmon_plugins.FileCount.Wildcard.{star, any, skip_to, match_rest, matches_pattern}
use netmon_plugins.FileCount.Wildcard.Globs.{Globs, end, one, leave, take, matches_pattern_iff}
use netmon_plugins.Prelude.{
  ℕ, suc, true, false, [], ◌∷◌, ◌++◌, ◌||◌, ◌==◌, if◌then◌else◌, ◌≡◌, ◌≢◌, ◌↔◌, ◌⊎◌, inl, inr, refl,
  ap, ◌∙◌, sym, append_assoc, arith, Lacks, Bool-cases, ==_refl, length, length-append,
}
use netmon_plugins.Prelude.Text.{Bytes}

-- Behind a text without `c` the search stops at the first `c`.
skip_to-append : (c : ℕ) (a r : Bytes) → Lacks c a → skip_to c (a ++ c ∷ r) ≡ c ∷ r
unfolding skip_to
skip_to-append c [] r lacks = rw ==_refl
skip_to-append c (x ∷ a) r (h, lacks) = ground (arith, skip_to-append c a r lacks)

-- A star, a byte that is no wildcard, and a text with no star: the star always runs to the first place
-- where the byte stands, and is not tried again behind it.
pub matches_pattern_first :
    (a r pat : Bytes) (c : ℕ)
    → c ≢ star
    → c ≢ any
    → Lacks c a
    → matches_pattern (a ++ c ∷ r) (star ∷ c ∷ pat) ≡ match_rest (c ∷ pat) (c ∷ r)
unfolding matches_pattern match_rest
matches_pattern_first [] r pat c hs ha lacks = ground (arith, skip_to-append c [] r lacks)
matches_pattern_first (x ∷ a) r pat c hs ha lacks = ground (arith, skip_to-append c (x ∷ a) r lacks)

-- A pattern without a star describes names of its own length only, its own text among them.
length-Globs : {pat name : Bytes} → Globs pat name → Lacks star pat → length name ≡ length pat
length-Globs end lacks = refl
length-Globs (one t g) lacks = ap suc (length-Globs g lacks.1)
length-Globs (leave e g) lacks = absurd (lacks.0 e)
length-Globs (take e g) lacks = absurd (lacks.0 e)

Globs_self : (e : Bytes) → Lacks star e → Globs e e
Globs_self [] lacks = end
Globs_self (x ∷ e) (h, lacks) = one (h, inr refl) (Globs_self e lacks)

Globs-star_append : (a pat name : Bytes) → Globs pat name → Globs (star ∷ pat) (a ++ name)
Globs-star_append [] pat name g = leave refl g
Globs-star_append (x ∷ a) pat name g = take refl (Globs-star_append a pat name g)

first_place :
    (c : ℕ) (name : Bytes)
    → Lacks c name ⊎ ((a : Bytes) × (r : Bytes) × (name ≡ a ++ c ∷ r) × Lacks c a)
first_place c [] = inl tt
first_place c (x ∷ name) = elim (Bool-cases (x == c)) [
  | inl found ↦ inr ([], name, ground arith, tt)
  | inr other ↦ elim (first_place c name) [
    | inl lacks ↦ inl (ground arith, lacks)
    | inr (a, r, e, lacks) ↦ inr (x ∷ a, r, ap (◌∷◌ x) e, (ground arith, lacks))
  ]
]

skip_to-Lacks : (c : ℕ) (name : Bytes) → Lacks c name → skip_to c name ≡ []
unfolding skip_to
skip_to-Lacks c [] lacks = refl
skip_to-Lacks c (x ∷ name) (h, lacks) = ground (arith, skip_to-Lacks c name lacks)

matches_pattern-Lacks :
    (name pat : Bytes) (c : ℕ) → Lacks c name → matches_pattern name (star ∷ c ∷ pat) ≡ false
unfolding matches_pattern match_rest
matches_pattern-Lacks [] pat c lacks = refl
matches_pattern-Lacks (x ∷ name) pat c lacks = ground (arith, skip_to-Lacks c (x ∷ name) lacks)

match_rest_drop :
    (c : ℕ) (pat r : Bytes) → c ≢ star → match_rest (c ∷ pat) (c ∷ r) ≡ match_rest pat r
unfolding match_rest
match_rest_drop c [] r hs = ground arith
match_rest_drop c (q ∷ pat) r hs = ground arith

match_rest_iff : (pat r : Bytes) → Lacks star pat → (match_rest pat r ≡ true) ↔ Globs pat r
unfolding match_rest
match_rest_iff [] [] lacks = (λ _. end, λ _. refl)
match_rest_iff [] (x ∷ r) lacks = (λ h. cc, λ g. elim g [ ])
match_rest_iff (p ∷ pat) r lacks =
    unfold matches_pattern in matches_pattern_iff r (p ∷ pat) (cc) lacks

-- A star, a byte that is no wildcard, and a text with no star, as `*.txt`: a name is accepted exactly if
-- the text describes what stands behind the first such byte of the name.
pub matches_pattern-suffix_iff :
    (name e : Bytes) (c : ℕ)
    → c ≢ star
    → c ≢ any
    → Lacks star e
    → (matches_pattern name (star ∷ c ∷ e) ≡ true)
      ↔ ((a : Bytes) × (r : Bytes) × (name ≡ a ++ c ∷ r) × Lacks c a × Globs e r)
matches_pattern-suffix_iff name e c hs ha lacks = (there (first_place c name), back)
  where
    at_first :
        (a r : Bytes) → Lacks c a → matches_pattern (a ++ c ∷ r) (star ∷ c ∷ e) ≡ match_rest e r
    at_first a r la = matches_pattern_first a r e c hs ha la ∙ match_rest_drop c e r hs

    there :
        Lacks c name ⊎ ((a : Bytes) × (r : Bytes) × (name ≡ a ++ c ∷ r) × Lacks c a)
        → matches_pattern name (star ∷ c ∷ e) ≡ true
        → (a : Bytes) × (r : Bytes) × (name ≡ a ++ c ∷ r) × Lacks c a × Globs e r
    there (inl without) h = absurd (cc (matches_pattern-Lacks name e c without))
    there (inr (a, r, p, la)) h =
        (a, r, p, la, (match_rest_iff e r lacks).0 (sym (at_first a r la) ∙ (rw p at h)))

    back :
        (a : Bytes) × (r : Bytes) × (name ≡ a ++ c ∷ r) × Lacks c a × Globs e r
        → matches_pattern name (star ∷ c ∷ e) ≡ true
    back (a, r, p, la, g) = rw p (at_first a r la ∙ (match_rest_iff e r lacks).1 g)

longer-not-Globs : (b e : Bytes) (c : ℕ) → Lacks star e → ¬ Globs e (b ++ c ∷ e)
longer-not-Globs b e c lacks g =
    absurd (omega (arith, length-Globs g lacks, length-append {0} b (c ∷ e)))

match_rest-longer : (b e : Bytes) (c : ℕ) → Lacks star e → match_rest e (b ++ c ∷ e) ≡ false
match_rest-longer b e c lacks = elim (Bool-cases (match_rest e (b ++ c ∷ e))) [
  | inl h ↦ absurd (longer-not-Globs b e c lacks ((match_rest_iff e _ lacks).0 h))
  | inr h ↦ h
]

-- A pattern of a star, a byte that is no wildcard and a text with no star describes the name that has this
-- byte, anything, and then the byte and the text, as `notes.old.txt` for `*.txt`, if the byte is not
-- earlier in the name; `matchesPattern` refuses that name.
pub matches_pattern-suffix_refused :
    (a b e : Bytes) (c : ℕ)
    → c ≢ star
    → c ≢ any
    → Lacks c a
    → Lacks star e
    → Globs (star ∷ c ∷ e) (a ++ c ∷ (b ++ c ∷ e))
      × (matches_pattern (a ++ c ∷ (b ++ c ∷ e)) (star ∷ c ∷ e) ≡ false)
matches_pattern-suffix_refused a b e c hs ha la lacks = (
  rw (← append_assoc a (c ∷ b) (c ∷ e))
      (Globs-star_append (a ++ c ∷ b) (c ∷ e) (c ∷ e) (Globs_self (c ∷ e) (hs, lacks))),
  matches_pattern_first a (b ++ c ∷ e) e c hs ha la
      ∙ match_rest_drop c e (b ++ c ∷ e) hs
      ∙ match_rest-longer b e c lacks,
)

match_rest_step :
    (p x : ℕ) (pat name : Bytes)
    → p ≢ star
    → match_rest (p ∷ (pat ++ star ∷ [])) (x ∷ name)
      ≡ (if p == any || p == x then match_rest (pat ++ star ∷ []) name else false)
unfolding match_rest
match_rest_step p x [] name h = ground arith
match_rest_step p x (q ∷ pat) name h = ground arith

-- The name has a part that `pat` describes and at least one byte behind it.
abbrev pub HasPrefix : Bytes → Bytes → Type 0
HasPrefix pat name = (a : Bytes) × (x : ℕ) × (r : Bytes) × (name ≡ a ++ x ∷ r) × Globs pat a

prefix_sound :
    (pat name : Bytes)
    → Lacks star pat
    → match_rest (pat ++ star ∷ []) name ≡ true
    → HasPrefix pat name
prefix_sound [] [] lacks h = unfold match_rest in cc h
prefix_sound [] (x ∷ name) lacks h = ([], x, name, refl, end)
prefix_sound (p ∷ pat) [] lacks h = unfold match_rest in cc h
prefix_sound (p ∷ pat) (x ∷ name) (hp, lacks) h = elim (Bool-cases (p == any || p == x)) [
  | inl t ↦
      let (a, y, r, e, g) =
        prefix_sound pat name lacks (ground (arith, match_rest_step p x pat name hp)) in
      (x ∷ a, y, r, ap (◌∷◌ x) e, one (hp, ground arith) g)
  | inr t ↦ absurd (ground (arith, match_rest_step p x pat name hp))
]

prefix_complete :
    {pat a : Bytes} (x : ℕ) (r : Bytes)
    → Globs pat a
    → Lacks star pat
    → match_rest (pat ++ star ∷ []) (a ++ x ∷ r) ≡ true
prefix_complete x r end lacks = unfold match_rest in refl
prefix_complete x r (one {p} {x = y} {pat} {name} t g) lacks =
    ground (arith, match_rest_step p y pat (name ++ x ∷ r) lacks.0, prefix_complete x r g lacks.1)
prefix_complete x r (leave e g) lacks = absurd (lacks.0 e)
prefix_complete x r (take e g) lacks = absurd (lacks.0 e)

matches_pattern-match_rest :
    (pat name : Bytes)
    → matches_pattern name (pat ++ star ∷ []) ≡ match_rest (pat ++ star ∷ []) name
unfolding matches_pattern
matches_pattern-match_rest [] name = refl
matches_pattern-match_rest (p ∷ pat) name = refl

-- A text with no star and a star behind it, as `core*`, accepts exactly the names that have the text as a
-- prefix with at least one byte behind it.
pub matches_pattern-prefix_iff :
    (pat name : Bytes)
    → Lacks star pat
    → (matches_pattern name (pat ++ star ∷ []) ≡ true) ↔ HasPrefix pat name
matches_pattern-prefix_iff pat name lacks =
    rw (matches_pattern-match_rest pat name)
      (prefix_sound pat name lacks, λ (a, x, r, e, g). rw e (prefix_complete x r g lacks))

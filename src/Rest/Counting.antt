-- ===== src/Rest/Counting.antt =====
-- The counting loop of the plugins under plugins/ that list what an HTTP interface knows.
use netmon_plugins.Rest.{count_from, count_places}
use netmon_plugins.Prelude.Search.{strip_prefix_sound, strip_prefix-append, split_found}
use netmon_plugins.Prelude.Text.{Bytes, strip_prefix, split_at_first}
use netmon_plugins.Prelude.{
  ℕ, zero, suc, ◌<◌, ◌≡◌, refl, [], ◌∷◌, ◌++◌, Option, none, some, length, length-append, sym, drop,
  arith, ap, ◌∙◌,
}

-- A scan from left to right: at a place where the word stands, count it, and pass over the rest of it.
pub places : ℕ → Bytes → Bytes → ℕ
places (suc skip) word [] = 0
places (suc skip) word (c ∷ s) = places skip word s
places zero word [] = 0
places zero word (c ∷ s) =
    let next = places zero word s in
    let behind = places (length (drop 1 word)) word s in
    elim (strip_prefix word (c ∷ s)) [ some r ↦ suc behind | none ↦ next ]

places-skip : (word passed s : Bytes) → places (length passed) word (passed ++ s) ≡ places 0 word s
unfolding places
places-skip word [] s = refl
places-skip word (c ∷ passed) s = places-skip word passed s

places-here :
    (w : ℕ) (word r : Bytes) → places 0 (w ∷ word) (w ∷ (word ++ r)) ≡ suc (places 0 (w ∷ word) r)
unfolding places
places-here w word r =
    rw (strip_prefix-append (w ∷ word) r, places) (ap suc (places-skip (w ∷ word) word r))

places-later :
    (c : ℕ) (word s : Bytes)
    → strip_prefix word (c ∷ s) ≡ none
    → places 0 word (c ∷ s) ≡ places 0 word s
unfolding places
places-later c word s h = rw (h, places) refl

-- What a search finds is where the scan counts next.
Agree : Bytes → Bytes → Option (Bytes × Bytes) → Type 0
Agree word s none = places 0 word s ≡ 0
Agree word s (some (a, r)) = (places 0 word s ≡ suc (places 0 word r)) × (length r < length s)

longer : (w : ℕ) (word r : Bytes) → length r < length (w ∷ (word ++ r))
longer w word r = omega (arith, length-append word r)

found_later :
    (c : ℕ) (word s : Bytes) (later : Option (Bytes × Bytes))
    → strip_prefix word (c ∷ s) ≡ none
    → Agree word s later
    → Agree word (c ∷ s) (elim later [ some (a, r) ↦ some (c ∷ a, r) | none ↦ none ])
unfolding Agree
found_later c word s none h agree = places-later c word s h ∙ agree
found_later c word s (some (a, r)) h agree =
    (places-later c word s h ∙ agree.0, omega (arith, agree.1))

found_here :
    (w c : ℕ) (word s r : Bytes)
    → c ∷ s ≡ w ∷ (word ++ r)
    → (places 0 (w ∷ word) (c ∷ s) ≡ suc (places 0 (w ∷ word) r)) × (length r < length (c ∷ s))
found_here w c word s r e =
    (rw e (places-here w word r), omega (arith, longer w word r, ap length e))

step :
    (w c : ℕ) (word s : Bytes) (found : Option Bytes)
    → strip_prefix (w ∷ word) (c ∷ s) ≡ found
    → Agree (w ∷ word) s (split_at_first (w ∷ word) s)
    → Agree (w ∷ word) (c ∷ s) (split_at_first (w ∷ word) (c ∷ s))
unfolding Agree split_at_first
step w c word s none h agree =
    rw (h, split_at_first) (found_later c (w ∷ word) s (split_at_first (w ∷ word) s) h agree)
step w c word s (some r) h agree =
    rw (split_found (w ∷ word) (c ∷ s) r h)
      (found_here w c word s r (strip_prefix_sound (w ∷ word) (c ∷ s) r h))

agree : (w : ℕ) (word s : Bytes) → Agree (w ∷ word) s (split_at_first (w ∷ word) s)
unfolding Agree split_at_first strip_prefix places
agree w word [] = refl
agree w word (c ∷ s) = step w c word s (strip_prefix (w ∷ word) (c ∷ s)) refl (agree w word s)

one_round :
    (fuel w : ℕ) (word s : Bytes) (found : Option (Bytes × Bytes))
    → split_at_first (w ∷ word) s ≡ found
    → Agree (w ∷ word) s found
    → length s < suc fuel
    → ((r : Bytes) → length r < fuel → count_from fuel (w ∷ word) r ≡ places 0 (w ∷ word) r)
    → count_from (suc fuel) (w ∷ word) s ≡ places 0 (w ∷ word) s
unfolding Agree count_from
one_round fuel w word s none h agree small rounds = rw (h, count_from) (sym agree)
one_round fuel w word s (some (a, r)) h agree small rounds =
    rw (h, count_from) (ap suc (rounds r (omega (arith, agree.1))) ∙ sym agree.0)

count_from-places :
    (fuel w : ℕ) (word s : Bytes)
    → length s < fuel
    → count_from fuel (w ∷ word) s ≡ places 0 (w ∷ word) s
count_from-places zero w word s small = absurd (omega arith)
count_from-places (suc fuel) w word s small =
    one_round fuel w word s (split_at_first (w ∷ word) s) refl (agree w word s) small
      (λ r. count_from-places fuel w word r)

-- For a word that is not empty, the loop ends with the fuel that is given, and counts what a scan from left to
-- right counts.
pub count_places-places :
    (w : ℕ) (word s : Bytes) → count_places (w ∷ word) s ≡ places 0 (w ∷ word) s
unfolding count_places
count_places-places w word s = count_from-places (suc (length s)) w word s (omega arith)

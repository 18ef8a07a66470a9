-- ===== src/Icmp/Checksum.antt =====
-- `in_cksum` as the Internet checksum of a packet with a checksum in it.
use netmon_plugins.Icmp.{sum_words, folded, in_cksum, store16, packet, echo_request}
use netmon_plugins.Cpp.Result.{Result, returns, throws, undefined, ◌>>=◌}
use netmon_plugins.Prelude.{
  ℕ, ◌+◌, ◌-◌, ◌*◌, ◌/◌, ◌%◌, ◌^◌, ◌<◌, ◌≡◌, ◌⊎◌, [], ◌∷◌, ◌++◌, ap, sym, refl, ◌∙◌, arith,
}
use netmon_plugins.Prelude.Text.{Bytes}

-- An even number of bytes.
abbrev pub IsEven : Bytes → Type 0
IsEven [] = Unit
IsEven (b ∷ []) = ⊥
IsEven (a ∷ b ∷ rest) = IsEven rest

abbrev pub total : Bytes → ℕ
total b = sum_words 0 b

sum_words-total : (n : ℕ) (b : Bytes) → sum_words n b ≡ n + sum_words 0 b
unfolding sum_words
sum_words-total n [] = omega arith
sum_words-total n (b ∷ []) = omega arith
sum_words-total n (lo ∷ hi ∷ rest) =
    omega (
      arith,
      sum_words-total (n + (lo + 256 * hi)) rest,
      sum_words-total (0 + (lo + 256 * hi)) rest,
    )

total-append : (p r : Bytes) → IsEven p → total (p ++ r) ≡ total p + total r
unfolding sum_words
total-append [] r h = omega arith
total-append (b ∷ []) r h = absurd h
total-append (lo ∷ hi ∷ p) r h = omega (
  arith,
  sum_words-total (0 + (lo + 256 * hi)) (p ++ r),
  sum_words-total (0 + (lo + 256 * hi)) p,
  total-append p r h,
)

total-word : (v : ℕ) (r : Bytes) → v < 2 ^ 16 → total (store16 v ++ r) ≡ v + total r
unfolding sum_words
total-word v r h = omega (arith, sum_words-total (0 + (v % 256 + 256 * (v / 256 % 256))) r)

-- The sum with a word `v` at an even place.
total-place :
    (p r : Bytes) (v : ℕ)
    → IsEven p
    → v < 2 ^ 16
    → total (p ++ (store16 v ++ r)) ≡ total p + v + total r
total-place p r v even h = omega (arith, total-append p (store16 v ++ r) even, total-word v r h)

folded-lt : (s : ℕ) → folded s < 2 ^ 16
unfolding folded
folded-lt s = omega arith

folded-add : (s : ℕ) → s < 2 ^ 31 → folded (s + folded s) ≡ 0
unfolding folded
folded-add s h = omega arith

folded-detects :
    (s v w : ℕ)
    → v < 2 ^ 16
    → w < 2 ^ 16
    → s < 2 ^ 31 - 2 ^ 16
    → folded (s + v) ≡ folded (s + w)
    → (v ≡ w) ⊎ ((v ≡ 0) × (w ≡ 2 ^ 16 - 1)) ⊎ ((v ≡ 2 ^ 16 - 1) × (w ≡ 0))
unfolding folded
folded-detects s v w hv hw small same = omega arith

in_cksum-place :
    (p r : Bytes) (v : ℕ)
    → IsEven p
    → v < 2 ^ 16
    → total p + total r < 2 ^ 31 - 2 ^ 16
    → in_cksum (p ++ (store16 v ++ r)) ≡ returns (folded (total p + v + total r))
unfolding in_cksum
in_cksum-place p r v even h small = rw (total-place p r v even h) (ground arith)

drop_zero : (a b : ℕ) → a + 0 + b ≡ a + b
drop_zero a b = omega arith

-- A checksum written at an even place that held zero makes the checksum of the whole zero, which is what
-- the receiver tests. The sum of the other words, with room for one more, must fit an `int`.
pub in_cksum-valid :
    (p r : Bytes)
    → IsEven p
    → total p + total r < 2 ^ 31 - 2 ^ 16
    → (in_cksum (p ++ (store16 0 ++ r)) >>= λ v. in_cksum (p ++ (store16 v ++ r))) ≡ returns 0
in_cksum-valid p r even h = rw (in_cksum-place p r 0 even (omega arith) h) (
    in_cksum-place p r (folded (total p + 0 + total r)) even (folded-lt _) h
    ∙ ap (λ n. returns (folded n)) (omega (arith, ap folded (drop_zero (total p) (total r))))
    ∙ ap returns (folded-add (total p + total r) (omega arith)))

returns-injective : (a b : ℕ) → Result.returns a ≡ returns b → a ≡ b
returns-injective a b h = cc

-- Two words at one even place that give the same checksum are equal, or are the two forms of zero. The sum
-- of the words must fit an `int`.
pub in_cksum-detects :
    (p r : Bytes) (v w : ℕ)
    → IsEven p
    → v < 2 ^ 16
    → w < 2 ^ 16
    → total p + total r < 2 ^ 31 - 2 ^ 16
    → in_cksum (p ++ (store16 v ++ r)) ≡ in_cksum (p ++ (store16 w ++ r))
    → (v ≡ w) ⊎ ((v ≡ 0) × (w ≡ 2 ^ 16 - 1)) ⊎ ((v ≡ 2 ^ 16 - 1) × (w ≡ 0))
in_cksum-detects p r v w even hv hw small same =
    folded-detects (total p + total r) v w hv hw small (
      ap folded (omega arith)
      ∙ returns-injective _ _
          (sym (in_cksum-place p r v even hv small) ∙ same ∙ in_cksum-place p r w even hw small)
      ∙ ap folded (omega arith))

sum_of_built :
    (m : Result ℕ) (build : ℕ → Bytes)
    → ((m >>= λ v. returns (build v)) >>= in_cksum) ≡ (m >>= λ v. in_cksum (build v))
sum_of_built (returns v) build = refl
sum_of_built (throws e) build = refl
sum_of_built undefined build = refl

-- The packet that `pingHost` sends is computed without overflow and has the checksum zero, whatever the process
-- and the sequence number.
pub echo_request-valid : (pid i : ℕ) → (echo_request pid i >>= in_cksum) ≡ returns 0
unfolding echo_request
echo_request-valid pid i =
    sum_of_built _ (λ v. packet v pid i)
    ∙ in_cksum-valid (8 ∷ 0 ∷ []) _ tt (unfold sum_words in omega arith)

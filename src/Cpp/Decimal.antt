-- ===== src/Cpp/Decimal.antt =====
-- `std::to_string` and `operator<<` of an integer: its decimal digits, with a sign if negative.
use netmon_plugins.Prelude.{
  ℕ, zero, suc, ◌+◌, ◌-◌, ◌*◌, ◌/◌, ◌%◌, ◌≤◌, ◌<◌, ◌≡◌, refl, Bool, false, [], ◌∷◌, ◌++◌, arith,
  ltb, leb, ◌&&◌, ap, ◌∙◌, if◌then◌else◌, ℤ, pos, negsuc, Bool-cases, inl, inr, Lacks,
}
use netmon_plugins.Prelude.Text.{Bytes}

-- The digits of `n` before `out`. Each round divides by ten, so `suc n` rounds are enough.
pub digits : ℕ → ℕ → Bytes → Bytes
digits zero n out = out
digits (suc f) n out =
    let more = digits f (n / 10) ((b'0' + n % 10) ∷ out) in
    if ltb n 10 then (b'0' + n) ∷ out else more

unfoldable pub to_string_ℕ : ℕ → Bytes
unfolding digits
to_string_ℕ n = digits (suc n) n []

unfoldable pub to_string : ℤ → Bytes
to_string (pos n) = to_string_ℕ n
to_string (negsuc n) = b'-' ∷ to_string_ℕ (suc n)

unfoldable pub is_digit : ℕ → Bool
is_digit c = leb b'0' c && leb c b'9'

-- The longest run of digits, read onto `acc`, and the text behind it.
unfoldable pub read_digits : ℕ → Bytes → ℕ × Bytes
unfolding is_digit
read_digits acc [] = (acc, [])
read_digits acc (c ∷ s) =
    let rest = read_digits (acc * 10 + (c - b'0')) s in if is_digit c then rest else (acc, c ∷ s)

abbrev pub starts_with_digit : Bytes → Bool
starts_with_digit [] = false
starts_with_digit (c ∷ s) = is_digit c

read_digits_digit :
    (acc d : ℕ) (s : Bytes)
    → d < 10
    → read_digits acc ((b'0' + d) ∷ s) ≡ read_digits (acc * 10 + d) s
unfolding read_digits
read_digits_digit acc d s h = ground arith

read_digits-digits :
    (f n : ℕ) (out : Bytes) → n < f → read_digits 0 (digits f n out) ≡ read_digits n out
unfolding digits
read_digits-digits zero n out h = absurd (omega arith)
read_digits-digits (suc f) n out h = elim (Bool-cases (ltb n 10)) [
  | inl small ↦
      rw small
        (read_digits_digit 0 n out (ground arith) ∙ ap (λ k. read_digits k out) (omega arith))
  | inr large ↦
      rw (large, read_digits-digits f (n / 10) ((b'0' + n % 10) ∷ out) (ground arith))
        (rw (read_digits_digit (n / 10) (n % 10) out (omega arith))
          (ap (λ k. read_digits k out) (omega arith)))
]

digits-append : (f n : ℕ) (out rest : Bytes) → digits f n out ++ rest ≡ digits f n (out ++ rest)
unfolding digits
digits-append zero n out rest = refl
digits-append (suc f) n out rest =
    ground (arith, digits-append f (n / 10) ((b'0' + n % 10) ∷ out) rest)

read_digits_stop :
    (n : ℕ) (rest : Bytes) → starts_with_digit rest ≡ false → read_digits n rest ≡ (n, rest)
unfolding read_digits
read_digits_stop n [] h = refl
read_digits_stop n (c ∷ rest) h = rw h

-- A number is read back from its digits, and the reading stops behind them.
pub read_digits-to_string_ℕ :
    (n : ℕ) (rest : Bytes)
    → starts_with_digit rest ≡ false
    → read_digits 0 (to_string_ℕ n ++ rest) ≡ (n, rest)
unfolding to_string_ℕ
read_digits-to_string_ℕ n rest h =
    rw (digits-append (suc n) n [] rest, read_digits-digits (suc n) n rest (omega arith))
      (read_digits_stop n rest h)

-- The first byte of what `digits` writes is a digit.
digits_head :
    (f n : ℕ) (out : Bytes)
    → n < f
    → (c : ℕ) × (s : Bytes) × (digits f n out ≡ c ∷ s) × (b'0' ≤ c) × (c ≤ b'9')
unfolding digits
digits_head zero n out h = absurd (omega arith)
digits_head (suc f) n out h = elim (Bool-cases (ltb n 10)) [
  | inl small ↦ (b'0' + n, out, rw small, omega arith, ground arith)
  | inr large ↦
      let (c, s, e, lo, hi) = digits_head f (n / 10) ((b'0' + n % 10) ∷ out) (ground arith) in
      (c, s, rw large e, lo, hi)
]

pub to_string_ℕ_head :
    (n : ℕ) → (c : ℕ) × (s : Bytes) × (to_string_ℕ n ≡ c ∷ s) × (b'0' ≤ c) × (c ≤ b'9')
unfolding to_string_ℕ
to_string_ℕ_head n = digits_head (suc n) n [] (omega arith)

digits-Lacks :
    (b : ℕ) → b < b'0' → (f n : ℕ) (out : Bytes) → n < f → Lacks b out → Lacks b (digits f n out)
unfolding digits
digits-Lacks b small zero n out h lacks = absurd (omega arith)
digits-Lacks b small (suc f) n out h lacks = elim (Bool-cases (ltb n 10)) [
  | inl last ↦ rw last (omega arith, lacks)
  | inr more ↦
      rw more (
        digits-Lacks b small f (n / 10) ((b'0' + n % 10) ∷ out) (ground arith) (omega arith, lacks))
]

-- A number's text holds no byte below the minus sign, such as a space.
pub to_string-Lacks : (b : ℕ) → b < b'-' → (z : ℤ) → Lacks b (to_string z)
unfolding to_string to_string_ℕ
to_string-Lacks b small (pos n) = digits-Lacks b (omega arith) (suc n) n [] (omega arith) tt
to_string-Lacks b small (negsuc n) =
    (omega arith, digits-Lacks b (omega arith) (suc (suc n)) (suc n) [] (omega arith) tt)

-- ===== src/Cpp/Convert.antt =====
-- `std::stoi` and `std::stol`: white space, a sign, digits, and the two exceptions. The text behind
-- the number stands for the position that `std::stol(text, &pos)` reports.
use netmon_plugins.Cpp.Decimal.{
  is_digit, read_digits, starts_with_digit, to_string, to_string_ℕ, read_digits-to_string_ℕ,
  to_string_ℕ_head,
}
use netmon_plugins.Cpp.Result.{Exception, Result, returns, throws, undefined, std_exception, ◌>>=◌}
use netmon_plugins.Prelude.{
  ℕ, suc, ◌-◌, ◌*◌, ◌%◌, ◌^◌, ◌≤◌, ◌≡◌, refl, Bool, true, false, [], ◌∷◌, ◌++◌, arith, ltb, leb,
  ◌==◌, ◌&&◌, ◌||◌, if◌then◌else◌, ℤ, pos, negsuc, sub_ℕ, ◌∙◌, ap, subst, append-nil, refl,
}
use netmon_plugins.Prelude.Text.{Bytes, codes}

abbrev pub int_max : ℕ
int_max = 2 ^ 31 - 1

abbrev pub long_max : ℕ
long_max = 2 ^ 63 - 1

-- The value fits a signed type whose largest value is `top`.
abbrev pub fits : ℕ → ℤ → Bool
fits top (pos n) = leb n top
fits top (negsuc n) = leb n top

-- A sum in an `int`, which has no defined behaviour where it does not fit.
unfoldable pub summed_int : ℤ → Result ℤ
summed_int z = if fits int_max z then returns z else undefined

-- `isspace` in the C locale.
unfoldable pub is_space : ℕ → Bool
is_space c = c == 32 || (leb 9 c && leb c 13)

unfoldable pub skip_spaces : Bytes → Bytes
unfolding is_space
skip_spaces [] = []
skip_spaces (c ∷ s) = if is_space c then skip_spaces s else c ∷ s

-- minus n
abbrev pub negated : ℕ → ℤ
negated n = sub_ℕ 0 n

negated-suc : (n : ℕ) → negated (suc n) ≡ negsuc n
negated-suc n = ground arith

abbrev with_sign : Bool → ℕ × Bytes → ℤ × Bytes
with_sign true (n, rest) = (negated n, rest)
with_sign false (n, rest) = (pos n, rest)

-- `strtol(text, &end, 10)` without its limits, or nothing if there is no number.
number_behind : Exception → Bool → Bytes → Result (ℤ × Bytes)
number_behind invalid minus s =
    if starts_with_digit s then returns (with_sign minus (read_digits 0 s)) else throws invalid

signed_number : Exception → Bytes → Result (ℤ × Bytes)
unfolding number_behind
signed_number invalid [] = throws invalid
signed_number invalid (c ∷ s) =
    if c == b'-'
    then number_behind invalid true s
    else if c == b'+'
    then number_behind invalid false s
    else number_behind invalid false (c ∷ s)

-- The value must lie in the range of the result type.
in_range : Exception → ℕ → ℤ × Bytes → Result (ℤ × Bytes)
in_range out_of_range top (v, rest) = if fits top v then returns (v, rest) else throws out_of_range

-- The message of both exceptions is the function's name.
abbrev pub stol_error : Exception
stol_error = std_exception (codes "stol")

abbrev pub stoi_error : Exception
stoi_error = std_exception (codes "stoi")

unfoldable pub stol : Bytes → Result (ℤ × Bytes)
unfolding skip_spaces signed_number in_range
stol s = signed_number stol_error (skip_spaces s) >>= in_range stol_error long_max

unfoldable pub stoi : Bytes → Result ℤ
unfolding skip_spaces signed_number in_range
stoi s = (signed_number stoi_error (skip_spaces s) >>= in_range stoi_error int_max) >>= λ (v, rest).
    returns v

-- `static_cast<int>` of a `long`: the low 32 bits, read as a signed number.
abbrev pub signed32 : ℕ → ℤ
signed32 w = if ltb w (2 ^ 31) then pos w else negsuc (2 ^ 32 - 1 - w)

unfoldable pub to_int : ℤ → ℤ
to_int (pos n) = signed32 (n % 2 ^ 32)
to_int (negsuc n) = signed32 (2 ^ 32 - 1 - n % 2 ^ 32)

-- A product of a `long` by a positive constant: undefined where it leaves the type.
unfoldable pub mul_long : ℤ → ℕ → Result ℤ
mul_long (pos n) k = if leb (n * k) long_max then returns (pos (n * k)) else undefined
mul_long (negsuc n) k =
    if leb (suc n * k) (suc long_max) then returns (negated (suc n * k)) else undefined

module _ (e : Exception) (rest : Bytes) (stops : starts_with_digit rest ≡ false) where
  number_behind-to_string_ℕ :
      (minus : Bool) (n : ℕ)
      → number_behind e minus (to_string_ℕ n ++ rest) ≡ returns (with_sign minus (n, rest))
  unfolding number_behind is_digit
  number_behind-to_string_ℕ minus n =
      let (c, s, head, lo, hi) = to_string_ℕ_head n in
      rw (read_digits-to_string_ℕ n rest stops) (rw head (ground arith))

  signed_number_digit :
      (c : ℕ) (s : Bytes)
      → b'0' ≤ c
      → c ≤ b'9'
      → signed_number e (skip_spaces (c ∷ s)) ≡ number_behind e false (c ∷ s)
  unfolding signed_number skip_spaces
  signed_number_digit c s lo hi = ground arith

  signed_number-to_string :
      (z : ℤ) → signed_number e (skip_spaces (to_string z ++ rest)) ≡ returns (z, rest)
  unfolding signed_number skip_spaces to_string
  signed_number-to_string (pos n) =
      let (c, s, head, lo, hi) = to_string_ℕ_head n in
      rw (← number_behind-to_string_ℕ false n) (rw head (signed_number_digit c (s ++ rest) lo hi))
  signed_number-to_string (negsuc n) =
      number_behind-to_string_ℕ true (suc n) ∙ ap (λ k. returns (k, rest)) (negated-suc n)

-- A number in range is read back from its decimal text, up to what follows it.
pub stol-to_string :
    (z : ℤ) (rest : Bytes)
    → fits long_max z ≡ true
    → starts_with_digit rest ≡ false
    → stol (to_string z ++ rest) ≡ returns (z, rest)
unfolding stol
stol-to_string z rest fit stops = rw (signed_number-to_string stol_error rest stops z, fit)

pub stoi-to_string :
    (z : ℤ) (rest : Bytes)
    → fits int_max z ≡ true
    → starts_with_digit rest ≡ false
    → stoi (to_string z ++ rest) ≡ returns z
unfolding stoi
stoi-to_string z rest fit stops = rw (signed_number-to_string stoi_error rest stops z, fit)

pub stoi-to_string_self : (z : ℤ) → fits int_max z ≡ true → stoi (to_string z) ≡ returns z
stoi-to_string_self z h =
    subst (λ s. stoi s ≡ returns z) (append-nil (to_string z)) (stoi-to_string z [] h refl)

-- A number out of range is refused.
pub stoi-out_of_range : (z : ℤ) → fits int_max z ≡ false → stoi (to_string z) ≡ throws stoi_error
unfolding stoi
stoi-out_of_range z large =
    subst (λ s. stoi s ≡ throws stoi_error) (append-nil (to_string z))
      (rw (signed_number-to_string stoi_error [] refl z, large))

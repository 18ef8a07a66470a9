-- ===== src/FileAge/Limits.antt =====
-- The limits that check_file_age reads from its options: a number and a unit, and what becomes of a limit
-- that does not fit an `int`.
use netmon_plugins.Cpp.Convert.{to_int, mul_long, fits, int_max, long_max, stol-to_string}
use netmon_plugins.Cpp.Decimal.{to_string, starts_with_digit, is_digit, to_string_ℕ_head}
use netmon_plugins.Cpp.Result.{returns}
use netmon_plugins.FileAge.{apply_unit, parse_time}
use netmon_plugins.Prelude.{
  ℕ, ◌*◌, ◌≤◌, ◌<◌, ◌-◌, ◌^◌, true, false, ◌∷◌, ◌++◌, ◌≡◌, ◌∙◌, ap, ◌⊎◌, ◌≢◌, arith, ℤ, pos, negsuc,
  is_empty,
}
use netmon_plugins.Plugin.{critical}
use netmon_plugins.Threshold.{upper_severity, upper_severity_iff}
use netmon_plugins.Prelude.Text.{Bytes}

-- The seconds in a unit, for the bytes that the `switch` knows.
pub data IsUnit : ℕ → ℕ → Type 0 where
  seconds : {u : ℕ} → (u ≡ b's') ⊎ (u ≡ b'S') → IsUnit u 1
  minutes : {u : ℕ} → (u ≡ b'm') ⊎ (u ≡ b'M') → IsUnit u 60
  hours : {u : ℕ} → (u ≡ b'h') ⊎ (u ≡ b'H') → IsUnit u 3600
  days : {u : ℕ} → (u ≡ b'd') ⊎ (u ≡ b'D') → IsUnit u 86400

IsUnit-digit : {u k : ℕ} → IsUnit u k → (b : Bytes) → starts_with_digit (u ∷ b) ≡ false
unfolding is_digit
IsUnit-digit (seconds e) b = ground arith
IsUnit-digit (minutes e) b = ground arith
IsUnit-digit (hours e) b = ground arith
IsUnit-digit (days e) b = ground arith

apply_unit-IsUnit :
    {u k : ℕ}
    → IsUnit u k
    → (n : ℕ) → n * k ≤ long_max
    → apply_unit (pos n) u ≡ returns (to_int (pos (n * k)))
unfolding apply_unit mul_long
apply_unit-IsUnit (seconds e) n h = ground arith
apply_unit-IsUnit (minutes e) n h = ground arith
apply_unit-IsUnit (hours e) n h = ground arith
apply_unit-IsUnit (days e) n h = ground arith

IsUnit-fits : {u k : ℕ} → IsUnit u k → (n : ℕ) → n * k ≤ long_max → fits long_max (pos n) ≡ true
IsUnit-fits (seconds e) n h = ground arith
IsUnit-fits (minutes e) n h = ground arith
IsUnit-fits (hours e) n h = ground arith
IsUnit-fits (days e) n h = ground arith

to_string-nonempty : (n : ℕ) (s : Bytes) → is_empty (to_string (pos n) ++ s) ≡ false
unfolding to_string
to_string-nonempty n s = let (c, t, e, lo, hi) = to_string_ℕ_head n in rw e

-- A number and one of the units of `IsUnit` are read as their seconds, reduced to an `int`, while the
-- product fits a `long`.
pub parse_time-to_int :
    {u k : ℕ} (unit : IsUnit u k) (n : ℕ) (rest : Bytes)
    → n * k ≤ long_max
    → parse_time (to_string (pos n) ++ u ∷ rest) ≡ returns (to_int (pos (n * k)))
unfolding parse_time
parse_time-to_int {u} {k} unit n rest h =
    rw
      (
        to_string-nonempty n (u ∷ rest),
        stol-to_string (pos n) (u ∷ rest) (IsUnit-fits unit n h) (IsUnit-digit unit rest),
      )
      (apply_unit-IsUnit unit n h)

to_int_small : (m : ℕ) → m ≤ int_max → to_int (pos m) ≡ pos m
unfolding to_int
to_int_small m h = ground arith

to_int_large : (m : ℕ) → 2 ^ 31 ≤ m → m < 2 ^ 32 → to_int (pos m) ≡ negsuc (2 ^ 32 - 1 - m)
unfolding to_int
to_int_large m lo hi = ground arith

-- A number and a unit mean that many seconds, if an `int` can hold them.
pub parse_time-IsUnit :
    {u k : ℕ} (unit : IsUnit u k) (n : ℕ) (rest : Bytes)
    → n * k ≤ int_max
    → parse_time (to_string (pos n) ++ u ∷ rest) ≡ returns (pos (n * k))
parse_time-IsUnit {k} unit n rest h =
    parse_time-to_int unit n rest (omega arith) ∙ ap returns (to_int_small (n * k) h)

-- A limit of a number and a unit that means at least 2^31 and fewer than 2^32 seconds, as `30000d`, is read
-- as one that no age meets: no age is reported as CRITICAL then.
pub parse_time-wraps :
    {u k : ℕ} (unit : IsUnit u k) (n : ℕ) (rest : Bytes) (warn age : ℤ)
    → 2 ^ 31 ≤ n * k
    → n * k < 2 ^ 32
    → (limit : ℤ) × (parse_time (to_string (pos n) ++ u ∷ rest) ≡ returns limit)
      × (upper_severity warn limit age ≢ critical)
parse_time-wraps {k} unit n rest warn age lo hi = (
  negsuc (2 ^ 32 - 1 - n * k),
  parse_time-to_int unit n rest (omega arith) ∙ ap returns (to_int_large (n * k) lo hi),
  λ h. absurd (omega (arith, ((upper_severity_iff warn _ age).0.0 h).0)),
)

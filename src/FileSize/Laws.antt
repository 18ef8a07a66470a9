-- ===== src/FileSize/Laws.antt =====
-- The limits, the printed sizes and the exit code of check_file_size.
use netmon_plugins.Cpp.Convert.{mul_long, fits, long_max, stol-to_string}
use netmon_plugins.Cpp.Decimal.{to_string, starts_with_digit, is_digit, to_string_ℕ_head}
use netmon_plugins.Cpp.Result.{returns}
use netmon_plugins.FileSize.{
  Config, Disk, get_file_size, format_size, apply_unit, parse_size, report, check,
}
use netmon_plugins.Plugin.{ok, PluginResult}
use netmon_plugins.Prelude.{
  ℕ, ◌+◌, ◌*◌, ◌/◌, ◌≤◌, ◌<◌, ◌^◌, true, false, [], ◌∷◌, ◌++◌, ◌≡◌, ◌≢◌, refl, ◌↔◌, ◌⊎◌, inl, inr,
  arith, ℤ, negsuc, pos, is_empty, ltb_ℤ, Bool-cases, Option, none, some,
}
use netmon_plugins.Prelude.Text.{Bytes, codes}
use netmon_plugins.Threshold.{Meets, upper_severity}

-- The bytes in a unit, for the letters that the `switch` knows.
pub data IsUnit : ℕ → ℕ → Type 0 where
  bytes : {u : ℕ} → (u ≡ b'b') ⊎ (u ≡ b'B') → IsUnit u 1
  kilobytes : {u : ℕ} → (u ≡ b'k') ⊎ (u ≡ b'K') → IsUnit u (2 ^ 10)
  megabytes : {u : ℕ} → (u ≡ b'm') ⊎ (u ≡ b'M') → IsUnit u (2 ^ 20)
  gigabytes : {u : ℕ} → (u ≡ b'g') ⊎ (u ≡ b'G') → IsUnit u (2 ^ 30)

IsUnit-digit : {u k : ℕ} → IsUnit u k → (b : Bytes) → starts_with_digit (u ∷ b) ≡ false
unfolding is_digit
IsUnit-digit (bytes e) b = ground arith
IsUnit-digit (kilobytes e) b = ground arith
IsUnit-digit (megabytes e) b = ground arith
IsUnit-digit (gigabytes e) b = ground arith

IsUnit-fits : {u k : ℕ} → IsUnit u k → (n : ℕ) → n * k ≤ long_max → fits long_max (pos n) ≡ true
IsUnit-fits (bytes e) n h = ground arith
IsUnit-fits (kilobytes e) n h = ground arith
IsUnit-fits (megabytes e) n h = ground arith
IsUnit-fits (gigabytes e) n h = ground arith

apply_unit-IsUnit :
    {u k : ℕ}
    → IsUnit u k
    → (n : ℕ) → n * k ≤ long_max
    → apply_unit (pos n) u ≡ returns (pos (n * k))
unfolding apply_unit mul_long
apply_unit-IsUnit (bytes e) n h = ground arith
apply_unit-IsUnit (kilobytes e) n h = ground arith
apply_unit-IsUnit (megabytes e) n h = ground arith
apply_unit-IsUnit (gigabytes e) n h = ground arith

to_string-nonempty : (n : ℕ) (s : Bytes) → is_empty (to_string (pos n) ++ s) ≡ false
unfolding to_string
to_string-nonempty n s = let (c, t, e, lo, hi) = to_string_ℕ_head n in rw e

-- A number and one of the units of `IsUnit` mean that many bytes, as long as a `long` can hold them.
pub parse_size-IsUnit :
    {u k : ℕ} (unit : IsUnit u k) (n : ℕ) (rest : Bytes)
    → n * k ≤ long_max
    → parse_size (to_string (pos n) ++ u ∷ rest) ≡ returns (pos (n * k))
unfolding parse_size
parse_size-IsUnit {u} unit n rest h =
    rw
      (
        to_string-nonempty n (u ∷ rest),
        stol-to_string (pos n) (u ∷ rest) (IsUnit-fits unit n h) (IsUnit-digit unit rest),
      )
      (apply_unit-IsUnit unit n h)

-- The suffixes that are printed, with their bytes.
pub data Suffix : Bytes → ℕ → Type 0 where
  b : Suffix (codes " B") 1
  kb : Suffix (codes " KB") (2 ^ 10)
  mb : Suffix (codes " MB") (2 ^ 20)
  gb : Suffix (codes " GB") (2 ^ 30)

abbrev pub Shows : ℕ → Bytes → Type 0
Shows n text =
    (k : ℕ) × (suffix : Bytes) × (len : ℕ) × Suffix suffix len
    × (text ≡ to_string (pos k) ++ suffix)
    × (k * len ≤ n)
    × (n < (k + 1) * len)
    × (k ≡ 0 → len ≡ 1)

-- The size in a message is the true size, rounded down to the unit that is shown; it is 0 only for the
-- empty file.
pub format_size-Shows : (n : ℕ) → Shows n (format_size (pos n))
unfolding format_size
format_size-Shows n = elim (Bool-cases (ltb_ℤ (pos n) (pos (2 ^ 10)))) [
  | inl x ↦ (n, codes " B", 1, b, rw x, omega arith, omega arith, λ _. refl)
  | inr x ↦ elim (Bool-cases (ltb_ℤ (pos n) (pos (2 ^ 20)))) [
    | inl y ↦
        (n / 2 ^ 10, codes " KB", 2 ^ 10, kb, rw (x, y), omega arith, omega arith, ground arith)
    | inr y ↦ elim (Bool-cases (ltb_ℤ (pos n) (pos (2 ^ 30)))) [
      | inl z ↦ (
        n / 2 ^ 20,
        codes " MB",
        2 ^ 20,
        mb,
        rw (x, y, z),
        omega arith,
        omega arith,
        ground arith,
      )
      | inr z ↦ (
        n / 2 ^ 30,
        codes " GB",
        2 ^ 30,
        gb,
        rw (x, y, z),
        omega arith,
        omega arith,
        ground arith,
      )
    ]
  ]
]

-- The file is there, its size is known, and the size reaches neither limit that is on.
abbrev pub IsFine : Disk → Config → Type 0
IsFine d c =
    (c.file_path ≢ [])
    × (d.accessible c.file_path ≡ true)
    × ((n : ℕ) × (d.size c.file_path ≡ some (pos n))
        × (¬ Meets c.warning_size (pos n))
        × (¬ Meets c.critical_size (pos n)))

module _ (d : Disk) (c : Config) (r : PluginResult) (done : check d c ≡ returns r) where
  check-IsFine : r.code ≡ ok → (found : Option ℤ) → d.size c.file_path ≡ found → IsFine d c
  unfolding check report get_file_size upper_severity
  check-IsFine h none e = absurd (ground arith)
  check-IsFine h (some (pos n)) e =
      (ground arith, ground arith, (n, e, λ m. ground arith, λ m. ground arith))
  check-IsFine h (some (negsuc n)) e = absurd (ground arith)

  IsFine-check : IsFine d c → r.code ≡ ok
  unfolding check report get_file_size upper_severity
  IsFine-check (named, there, (n, e, w, k)) = ground arith

  -- The result that `check` returns is OK exactly if the file is there, its size is known, and the size
  -- reaches neither limit that is on.
  pub check-ok_iff : (r.code ≡ ok) ↔ IsFine d c
  check-ok_iff = (λ h. check-IsFine h (d.size c.file_path) refl, IsFine-check)

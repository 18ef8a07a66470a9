-- ===== src/FileAge/Format.antt =====
-- `formatAge`: the unit that is chosen and the number in front of it.
use netmon_plugins.FileAge.{quantity, format_age}
use netmon_plugins.Prelude.{
  ℕ, ◌+◌, ◌*◌, ◌/◌, ◌≤◌, ◌<◌, ◌≡◌, arith, pos, ltb_ℤ, Bool-cases, inl, inr, refl,
}
use netmon_plugins.Prelude.Text.{Bytes, codes}

-- The words for the units, with their seconds and the number of seconds from which on the next unit is used.
pub data Span : Bytes → ℕ → Type 0 where
  second : Span (codes " second") 1
  minute : Span (codes " minute") 60
  hour : Span (codes " hour") 3600
  day : Span (codes " day") 86400

-- The text names a unit and how many whole units have passed; the number is 0 only for seconds.
abbrev pub Shows : ℕ → Bytes → Type 0
Shows s text =
    (k : ℕ) × (unit : Bytes) × (len : ℕ) × Span unit len
    × (text ≡ quantity (pos k) unit)
    × (k * len ≤ s)
    × (s < (k + 1) * len)
    × (k ≡ 0 → len ≡ 1)

-- The age in a message is the true age, rounded down to the unit that is shown.
pub format_age-Shows : (s : ℕ) → Shows s (format_age (pos s))
unfolding format_age
format_age-Shows s = elim (Bool-cases (ltb_ℤ (pos s) (pos 60))) [
  | inl a ↦ (s, codes " second", 1, second, rw a, omega arith, omega arith, λ _. refl)
  | inr a ↦ elim (Bool-cases (ltb_ℤ (pos s) (pos 3600))) [
    | inl b ↦
        (s / 60, codes " minute", 60, minute, rw (a, b), omega arith, omega arith, ground arith)
    | inr b ↦ elim (Bool-cases (ltb_ℤ (pos s) (pos 86400))) [
      | inl d ↦ (
        s / 3600,
        codes " hour",
        3600,
        hour,
        rw (a, b, d),
        omega arith,
        omega arith,
        ground arith,
      )
      | inr d ↦ (
        s / 86400,
        codes " day",
        86400,
        day,
        rw (a, b, d),
        omega arith,
        omega arith,
        ground arith,
      )
    ]
  ]
]

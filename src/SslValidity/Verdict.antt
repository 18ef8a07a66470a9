-- ===== src/SslValidity/Verdict.antt =====
-- The exit code of check_ssl_validity, by the time that the certificate has left.
use netmon_plugins.Cpp.Convert.{to_int}
use netmon_plugins.Plugin.{ExitCode, ok, warning, critical}
use netmon_plugins.Prelude.{
  ℕ, ◌+◌, ◌*◌, ◌/◌, ◌^◌, ◌<◌, ◌≡◌, ◌≢◌, ◌↔◌, refl, Bool, true, false, arith, [], some, ℤ, pos,
  negsuc, ◌-ℤ◌, leb_ℤ, if◌then◌else◌,
}
use netmon_plugins.Prelude.Text.{Bytes}
use netmon_plugins.SslValidity.{Config, severity, report, check}
use netmon_plugins.SslValidity.Certificate.{
  Answers, days_until_expiry, certificate_days, check_ssl_certificate,
}

-- Every step succeeds, and the certificate has an end.
abbrev pub Presents : Answers → ℤ → Type 0
Presents a expiry =
    (a.has_context ≡ true)
    × (a.resolves ≡ true)
    × (a.opens ≡ true)
    × (a.connects ≡ true)
    × (a.has_session ≡ true)
    × (a.shakes_hands ≡ true)
    × (a.has_certificate ≡ true)
    × (a.not_after ≡ some expiry)

-- The seconds that are left run out before `limit` days and one more have passed.
abbrev pub Within : ℤ → ℕ → Type 0
Within limit seconds = (days : ℕ) × (limit ≡ pos days) × (seconds < (days + 1) * 86400)

certificate_days-Presents :
    (a : Answers) (expiry now : ℤ)
    → Presents a expiry
    → (certificate_days a now).1 ≡ some (days_until_expiry (some expiry) now)
unfolding certificate_days
certificate_days-Presents a expiry now p = ground arith

days_until_expiry-pos :
    (expiry now : ℤ) (d : ℕ)
    → expiry -ℤ now ≡ pos d
    → d < 2 ^ 31 * 86400
    → days_until_expiry (some expiry) now ≡ pos (d / 86400)
unfolding days_until_expiry to_int
days_until_expiry-pos expiry now d e h = rw e (ground arith)

leb-Within : (limit : ℤ) (d : ℕ) → (leb_ℤ (pos (d / 86400)) limit ≡ true) ↔ Within limit d
leb-Within (pos n) d = (λ h. (n, refl, ground arith), λ (m, e, h). ground arith)
leb-Within (negsuc n) d = (λ h. absurd (ground arith), λ (m, e, h). absurd (ground arith))

-- The exit code, described without the order of the tests.
abbrev pub Verdicts : ExitCode → Type 0 → Type 0 → Type 0
Verdicts code K W =
    ((code ≡ critical) ↔ K) × ((code ≡ warning) ↔ (W × ¬ K)) × ((code ≡ ok) ↔ (¬ W × ¬ K))

chain-Verdicts :
    (k w : Bool) {K W : Type 0}
    → (k ≡ true) ↔ K
    → (w ≡ true) ↔ W
    → Verdicts (if k then critical else if w then warning else ok) K W
chain-Verdicts true w (f, g) (p, q) = (
  (λ _. f refl, λ _. refl),
  (λ h. absurd (ground arith), λ (_, n). absurd (n (f refl))),
  (λ h. absurd (ground arith), λ (_, n). absurd (n (f refl))),
)
chain-Verdicts false true (f, g) (p, q) = (
  (λ h. absurd (ground arith), λ k. absurd (ground (arith, g k))),
  (λ _. (p refl, λ k. ground (arith, g k)), λ _. refl),
  (λ h. absurd (ground arith), λ (n, _). absurd (n (p refl))),
)
chain-Verdicts false false (f, g) (p, q) = (
  (λ h. absurd (ground arith), λ k. absurd (ground (arith, g k))),
  (λ h. absurd (ground arith), λ (w, _). absurd (ground (arith, q w))),
  (λ _. (λ w. ground (arith, q w), λ k. ground (arith, g k)), λ _. refl),
)

severity-pos :
    (c : Config) (n : ℕ)
    → severity c (pos n) ≡ (
        if leb_ℤ (pos n) c.critical_days
        then critical
        else if leb_ℤ (pos n) c.warning_days
        then warning
        else ok)
unfolding severity
severity-pos c n = ground arith

severity-Verdicts :
    (c : Config) (d : ℕ)
    → Verdicts (severity c (pos (d / 86400))) (Within c.critical_days d) (Within c.warning_days d)
severity-Verdicts c d =
    rw (severity-pos c (d / 86400))
      (chain-Verdicts _ _ (leb-Within c.critical_days d) (leb-Within c.warning_days d))

module _ (answers : Bytes → ℤ → ℤ → Answers) (now expiry : ℤ) (c : Config) (named : c.hostname ≢ [])
    (shown : Presents (answers c.hostname c.port c.timeout_seconds) expiry) where
  check-report : (check true answers now c).1 ≡ report c (days_until_expiry (some expiry) now)
  unfolding check check_ssl_certificate
  check-report =
      rw (certificate_days-Presents (answers c.hostname c.port c.timeout_seconds) expiry now shown)
        (ground arith)

  -- Built with OpenSSL, with a host whose certificate can be read and is not over: where `d` seconds are
  -- left, fewer than 2^31 days, the result is CRITICAL exactly if the critical limit is not negative and
  -- fewer than that many days and one are left, else WARNING exactly if this holds of the warning limit,
  -- else OK.
  pub ssl_check-Verdicts :
      (d : ℕ)
      → expiry -ℤ now ≡ pos d
      → d < 2 ^ 31 * 86400
      → Verdicts
          (check true answers now c).1.code
          (Within c.critical_days d)
          (Within c.warning_days d)
  unfolding report
  ssl_check-Verdicts d e h =
      rw (check-report, days_until_expiry-pos expiry now d e h) (severity-Verdicts c d)

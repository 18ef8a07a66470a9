-- ===== src/Http/Verdict.antt =====
-- What an OK result of check_http says about the response.
use netmon_plugins.Http.{
  Config, Exchange, http_request, is_expected, accepted, check_http, effective, report, check,
}
use netmon_plugins.HttpApi.Response.{until_zero}
use netmon_plugins.Plugin.{ok}
use netmon_plugins.Prelude.{
  Bool, true, false, ◌&&◌, [], ◌∷◌, Option, none, some, is_empty, ◌≡◌, ◌≢◌, ◌↔◌, ◌⊎◌, inl, inr,
  refl, arith, Bool-cases, subst, sym, ap, ◌∙◌,
}
use netmon_plugins.Prelude.Text.{Bytes, codes, contains, split_at_first, strip_prefix}

-- The first piece of the response to the request, up to its first zero byte.
abbrev pub IsAnswered : Bool → Exchange → Config → Bytes → Type 0
IsAnswered built_with_ssl exchange c response =
    (bytes : Bytes) × (exchange (built_with_ssl && c.use_ssl) c.hostname c.port c.timeout_seconds
        (http_request c.hostname c.port c.uri)
      ≡ some bytes)
    × (until_zero bytes ≡ response)

abbrev pub Expected : Bytes → Bytes → Type 0
Expected expect_string response =
    (contains (codes "HTTP/1") response ≡ true)
    × (contains (codes "200") response ≡ true)
    × ((expect_string ≡ []) ⊎ (contains expect_string response ≡ true))

is_expected_iff :
    (expect_string response : Bytes)
    → (is_expected expect_string response ≡ true) ↔ Expected expect_string response
unfolding is_expected
is_expected_iff [] response = ground arith
is_expected_iff (c ∷ e) response = ground arith

some_injective : (a b : Bytes) → some a ≡ some b → a ≡ b
some_injective a b p = ground arith

Expected-nonempty : (e bytes : Bytes) → [] ≡ bytes → ¬ Expected e (until_zero bytes)
unfolding contains split_at_first strip_prefix
Expected-nonempty e [] p (x, y, z) = absurd (ground arith)
Expected-nonempty e (b ∷ bytes) p x = absurd (ground arith)

accepted_iff :
    (expect_string : Bytes) (found : Option Bytes)
    → (accepted expect_string found ≡ true) ↔ (
        (response : Bytes) × ((bytes : Bytes) × (found ≡ some bytes)
          × (until_zero bytes ≡ response))
        × Expected expect_string response)
unfolding accepted
accepted_iff e none = (λ h. absurd (ground arith), λ (r, (b, p, q), x). absurd (ground arith))
accepted_iff e (some []) = (
  λ h. absurd (ground arith),
  λ (r, (b, p, q), x).
      absurd (Expected-nonempty e b (some_injective _ _ p) (subst (λ t. Expected e t) (sym q) x)),
)
accepted_iff e (some (b ∷ bytes)) = (
  λ h. (until_zero (b ∷ bytes), (b ∷ bytes, refl, refl), (is_expected_iff e _).0 h),
  λ (r, (b', p, q), x).
      (is_expected_iff e _).1
        (subst (λ t. Expected e t) (sym (ap until_zero (some_injective _ _ p) ∙ q)) x),
)

report-code : (c : Config) (success : Bool) → ((report c success).code ≡ ok) ↔ (success ≡ true)
unfolding report
report-code c true = (λ _. refl, λ _. refl)
report-code c false = (λ h. absurd (ground arith), λ h. absurd (ground arith))

module _ (built_with_ssl : Bool) (exchange : Exchange) where
  -- The result is OK exactly if there is a host and the first piece of its response, up to a zero byte, has
  -- `HTTP/1`, `200` and the expected string in it, each anywhere. The request is made with the options as
  -- they are after the fall-back from HTTPS to HTTP.
  pub http_check-ok_iff :
      (c : Config)
      → ((check built_with_ssl exchange c).1.code ≡ ok) ↔ (
          (c.hostname ≢ [])
          × ((response : Bytes) × IsAnswered built_with_ssl exchange
                (effective built_with_ssl c)
                response
              × Expected (effective built_with_ssl c).expect_string response))
  unfolding check check_http
  http_check-ok_iff c = elim (Bool-cases (is_empty c.hostname)) [
    | inl e ↦ (λ h. absurd (ground arith), λ (named, x). absurd (ground arith))
    | inr e ↦ (
      λ h. (
        ground arith,
        (accepted_iff _ _).0 (
            (report-code (effective built_with_ssl c)
                (check_http built_with_ssl exchange (effective built_with_ssl c))).0
              (ground arith)),
      ),
      λ (named, x). rw e ((report-code _ _).1 ((accepted_iff _ _).1 x)),
    )
  ]

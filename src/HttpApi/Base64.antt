-- ===== src/HttpApi/Base64.antt =====
-- The `while (i < auth.length())` loop of `httpGetAuth` in src/common/http_api.cpp. `auth` is a text of bytes
-- below 256, so that the `|` of shifted bytes is a sum. `i` and the length are of type `size_t`, 64 bits.
use netmon_plugins.Prelude.{
  ℕ, ◌+◌, ◌-◌, ◌*◌, ◌/◌, ◌%◌, ◌^◌, [], ◌∷◌, ◌++◌, ltb, if◌then◌else◌, length, get_or,
}
use netmon_plugins.Prelude.Text.{Bytes, codes}

abbrev pub base64_chars : Bytes
base64_chars = codes "ABCDEFGHIJKLMNOPQRSTUVWXYZabcdefghijklmnopqrstuvwxyz0123456789+/"

unfoldable pub char_of : ℕ → ℕ
char_of k = get_or base64_chars k 0

-- `a - b` in a `size_t`.
abbrev pub sub64 : ℕ → ℕ → ℕ
sub64 a b = (a + 2 ^ 64 - b) % 2 ^ 64

abbrev pub combined : ℕ → ℕ → ℕ → ℕ
combined b1 b2 b3 = b1 * 2 ^ 16 + b2 * 2 ^ 8 + b3

-- The four characters of a round. `i` is the position behind the bytes that the round has read.
unfoldable pub emit : ℕ → ℕ → ℕ → ℕ → ℕ → Bytes
emit len i b1 b2 b3 =
    char_of (combined b1 b2 b3 / 2 ^ 18 % 64)
    ∷ char_of (combined b1 b2 b3 / 2 ^ 12 % 64)
    ∷ (if ltb (sub64 i 2) len then char_of (combined b1 b2 b3 / 2 ^ 6 % 64) else b'=')
    ∷ (if ltb (sub64 i 1) len then char_of (combined b1 b2 b3 % 64) else b'=')
    ∷ []

-- The loop at position `i`, in front of the bytes that are left; a byte past the end is 0.
unfoldable pub encode_from : ℕ → ℕ → Bytes → Bytes
encode_from len i [] = []
encode_from len i (b1 ∷ []) = emit len (i + 1) b1 0 0
encode_from len i (b1 ∷ b2 ∷ []) = emit len (i + 2) b1 b2 0
encode_from len i (b1 ∷ b2 ∷ b3 ∷ rest) = emit len (i + 3) b1 b2 b3 ++ encode_from len (i + 3) rest

unfoldable pub encode : Bytes → Bytes
unfolding encode_from emit char_of
encode auth = encode_from (length auth) 0 auth

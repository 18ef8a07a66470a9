-- ===== src/HttpApi/Rfc4648.antt =====
-- `httpGetAuth`'s encoding against RFC 4648: what the encoder writes, by the length of its input, and what a
-- decoder makes of it.
use netmon_plugins.HttpApi.Base64.{char_of, combined, emit, encode_from, encode}
use netmon_plugins.Prelude.{
  ℕ, zero, suc, ◌+◌, ◌-◌, ◌*◌, ◌/◌, ◌%◌, ◌^◌, ◌≤◌, ◌<◌, ◌≡◌, ◌≢◌, refl, [], ◌∷◌, ◌++◌,
  if◌then◌else◌, leb, ◌==◌, Bool, true, false, Bool-cases, inl, inr, All, length, ◌↔◌, sym, arith,
  ap, ◌∙◌,
}
use netmon_plugins.Prelude.Text.{Bytes}

-- The four characters of 24 bits.
abbrev quad : ℕ → ℕ → ℕ → Bytes
quad b1 b2 b3 =
    char_of (combined b1 b2 b3 / 2 ^ 18 % 64)
    ∷ char_of (combined b1 b2 b3 / 2 ^ 12 % 64)
    ∷ char_of (combined b1 b2 b3 / 2 ^ 6 % 64)
    ∷ char_of (combined b1 b2 b3 % 64)
    ∷ []

-- RFC 4648, section 4: a final group of one byte or two is padded with `=`.
unfoldable pub standard : Bytes → Bytes
standard [] = []
standard (b1 ∷ []) = char_of (b1 / 4) ∷ char_of (b1 % 4 * 16) ∷ b'=' ∷ b'=' ∷ []
standard (b1 ∷ b2 ∷ []) =
    char_of (b1 / 4) ∷ char_of (b1 % 4 * 16 + b2 / 16) ∷ char_of (b2 % 16 * 4) ∷ b'=' ∷ []
standard (b1 ∷ b2 ∷ b3 ∷ rest) = quad b1 b2 b3 ++ standard rest

-- The bytes, filled up with zeros to a multiple of three.
abbrev pub filled : Bytes → Bytes
filled [] = []
filled (b1 ∷ []) = b1 ∷ 0 ∷ 0 ∷ []
filled (b1 ∷ b2 ∷ []) = b1 ∷ b2 ∷ 0 ∷ []
filled (b1 ∷ b2 ∷ b3 ∷ rest) = b1 ∷ b2 ∷ b3 ∷ filled rest

emit-quad :
    (len i b1 b2 b3 : ℕ) → 2 ≤ i → i ≤ len + 0 → len < 2 ^ 64 → emit len i b1 b2 b3 ≡ quad b1 b2 b3
unfolding emit
emit-quad len i b1 b2 b3 lo hi fit = ground arith

encode_from-filled :
    (len i : ℕ) (s : Bytes)
    → i + length s ≡ len
    → 2 ≤ len
    → len < 2 ^ 64
    → (length s ≡ 1 → 1 ≤ i)
    → encode_from len i s ≡ standard (filled s)
unfolding encode_from standard
encode_from-filled len i [] e two fit h = refl
encode_from-filled len i (b1 ∷ []) e two fit h =
    emit-quad len (i + 1) b1 0 0 (omega arith) (omega arith) fit
encode_from-filled len i (b1 ∷ b2 ∷ []) e two fit h =
    emit-quad len (i + 2) b1 b2 0 (omega arith) (omega arith) fit
encode_from-filled len i (b1 ∷ b2 ∷ b3 ∷ rest) e two fit h =
    rw
      (
        emit-quad len (i + 3) b1 b2 b3 (omega arith) (omega arith) fit,
        encode_from-filled len (i + 3) rest (omega arith) two fit (λ _. omega arith),
      )
      refl

-- The encoder writes the standard encoding of its input filled up with zeros, for every input of two bytes
-- and more that is shorter than 2^64.
pub encode-filled : (s : Bytes) → 2 ≤ length s → length s < 2 ^ 64 → encode s ≡ standard (filled s)
unfolding encode
encode-filled s two fit = encode_from-filled (length s) 0 s (omega arith) two fit (λ h. omega arith)

-- The number of a character in the alphabet.
value_of : ℕ → ℕ
value_of c =
    if leb b'a' c
    then c - b'a' + 26
    else if leb b'A' c
    then c - b'A'
    else if leb b'0' c
    then c - b'0' + 52
    else if c == b'+'
    then 62
    else 63

-- A decoder for RFC 4648, which stops at the padding.
pub decode : Bytes → Bytes
decode (a ∷ b ∷ c ∷ d ∷ rest) =
    let first = (value_of a * 4 + value_of b / 16) % 256 in
    let second = (value_of b * 16 + value_of c / 4) % 256 in
    let third = (value_of c * 64 + value_of d) % 256 in
    let others = decode rest in
    if c == b'='
    then first ∷ []
    else if d == b'='
    then first ∷ second ∷ []
    else first ∷ second ∷ third ∷ others
decode _ = []

-- The digit is read back from its letter, which is not the padding.
reads_back : ℕ → Bool
reads_back digit = if char_of digit == b'=' then false else value_of (char_of digit) == digit

each_digit : (count : ℕ) → Bool
each_digit zero = true
each_digit (suc digit) = if reads_back digit then each_digit digit else false

each_digit_at :
    (digit count : ℕ) → digit < count → each_digit count ≡ true → reads_back digit ≡ true
unfolding each_digit
each_digit_at digit (suc count) below checked = elim (Bool-cases (digit == count)) [
  | inl same ↦ ground arith
  | inr other ↦ each_digit_at digit count (ground arith) (ground arith)
]
each_digit_at digit zero below checked = absurd (omega arith)

alphabet_checked : each_digit 64 ≡ true
unfolding each_digit reads_back value_of char_of
alphabet_checked = refl

alphabet : (k : ℕ) → k < 64 → (value_of (char_of k) ≡ k) × (char_of k ≢ b'=')
unfolding reads_back
alphabet k h = let fact = each_digit_at k 64 h alphabet_checked in (ground arith, ground arith)

abbrev pub AreBytes : Bytes → Type 0
AreBytes = All (λ b. b < 256)

decode-chars :
    (x y z w : ℕ) (rest : Bytes)
    → x < 64
    → y < 64
    → z < 64
    → w < 64
    → decode (char_of x ∷ char_of y ∷ char_of z ∷ char_of w ∷ rest)
      ≡ (x * 4 + y / 16) % 256 ∷ (y * 16 + z / 4) % 256 ∷ (z * 64 + w) % 256 ∷ decode rest
unfolding decode
decode-chars x y z w rest hx hy hz hw =
    ground (arith, alphabet x hx, alphabet y hy, alphabet z hz, alphabet w hw)

cons₃ :
    (a b c a' b' c' : ℕ) (r : Bytes) → a ≡ a' → b ≡ b' → c ≡ c' → a ∷ b ∷ c ∷ r ≡ a' ∷ b' ∷ c' ∷ r
cons₃ a b c a' b' c' r p q s = cc

decode-quad :
    (b1 b2 b3 : ℕ) (rest : Bytes)
    → b1 < 256
    → b2 < 256
    → b3 < 256
    → decode (quad b1 b2 b3 ++ rest) ≡ b1 ∷ b2 ∷ b3 ∷ decode rest
decode-quad b1 b2 b3 rest h1 h2 h3 =
    decode-chars _ _ _ _ rest (omega arith) (omega arith) (omega arith) (omega arith)
    ∙ cons₃ _ _ _ _ _ _ (decode rest) (omega arith) (omega arith) (omega arith)

decode-standard_whole : (s : Bytes) → AreBytes s → length s % 3 ≡ 0 → decode (standard s) ≡ s
unfolding standard
decode-standard_whole [] h m = unfold decode in refl
decode-standard_whole (b1 ∷ []) h m = absurd (omega arith)
decode-standard_whole (b1 ∷ b2 ∷ []) h m = absurd (omega arith)
decode-standard_whole (b1 ∷ b2 ∷ b3 ∷ rest) (h1, (h2, (h3, h))) m =
    rw (decode-quad b1 b2 b3 (standard rest) h1 h2 h3, decode-standard_whole rest h (omega arith))

filled_whole : (s : Bytes) → length s % 3 ≡ 0 → filled s ≡ s
filled_whole [] m = refl
filled_whole (b1 ∷ []) m = absurd (omega arith)
filled_whole (b1 ∷ b2 ∷ []) m = absurd (omega arith)
filled_whole (b1 ∷ b2 ∷ b3 ∷ rest) m = rw (filled_whole rest (omega arith))

length-filled : (s : Bytes) → (length (filled s) % 3 ≡ 0) × (length s ≤ length (filled s))
length-filled [] = (omega arith, omega arith)
length-filled (b1 ∷ []) = (omega arith, omega arith)
length-filled (b1 ∷ b2 ∷ []) = (omega arith, omega arith)
length-filled (b1 ∷ b2 ∷ b3 ∷ rest) = let (m, h) = length-filled rest in (omega arith, omega arith)

filled-AreBytes : (s : Bytes) → AreBytes s → AreBytes (filled s)
filled-AreBytes [] h = tt
filled-AreBytes (b1 ∷ []) h = omega arith
filled-AreBytes (b1 ∷ b2 ∷ []) h = omega arith
filled-AreBytes (b1 ∷ b2 ∷ b3 ∷ rest) (h1, (h2, (h3, h))) = (h1, (h2, (h3, filled-AreBytes rest h)))

-- What a server decodes: the credentials, filled up with zero bytes to a multiple of three.
pub decode-encode :
    (s : Bytes) → AreBytes s → 2 ≤ length s → length s < 2 ^ 64 → decode (encode s) ≡ filled s
decode-encode s h two fit =
    rw (encode-filled s two fit)
      (decode-standard_whole (filled s) (filled-AreBytes s h) (length-filled s).0)

-- What a decoder for RFC 4648 reads is the text that was encoded exactly if its length is a multiple of
-- three, for every text of two bytes and more that is shorter than 2^64.
pub decode-encode_iff :
    (s : Bytes)
    → AreBytes s
    → 2 ≤ length s
    → length s < 2 ^ 64
    → (decode (encode s) ≡ s) ↔ (length s % 3 ≡ 0)
decode-encode_iff s h two fit = (
  λ e. omega (arith, length-filled s, ap length (sym (decode-encode s h two fit) ∙ e)),
  λ m. decode-encode s h two fit ∙ filled_whole s m,
)

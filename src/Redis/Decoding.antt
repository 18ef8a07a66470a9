-- ===== src/Redis/Decoding.antt =====
-- What a Redis server reads from the bytes that `sendRedisCommand` writes, by the Redis protocol.
use netmon_plugins.Cpp.Convert.{is_space}
use netmon_plugins.Cpp.Decimal.{read_digits, to_string_ℕ, read_digits-to_string_ℕ, is_digit}
use netmon_plugins.Prelude.{
  ℕ, zero, suc, false, List, [], ◌∷◌, ◌++◌, Option, none, some, ◌==◌, if◌then◌else◌, length, take,
  drop, take-append, drop-append, ◌≡◌, ◌≢◌, refl, ◌∙◌, ap, sym, All, append-nil, append_assoc,
}
use netmon_plugins.Prelude.Search.{strip_prefix-append}
use netmon_plugins.Prelude.Text.{Bytes, codes, strip_prefix}
use netmon_plugins.Redis.Protocol.{flushed, words_from, words, bulk_strings, encode_command}
use netmon_plugins.HttpApi.Response.{crlf}

infixl 5 ◌>>=◌
abbrev ◌>>=◌ {ℓ κ} : {A : Type ℓ} {B : Type κ} → Option A → (A → Option B) → Option B
none >>= f = none
some a >>= f = f a

-- A number and a line end.
abbrev read_count : Bytes → Option (ℕ × Bytes)
read_count s = strip_prefix crlf (read_digits 0 s).1 >>= λ r. some ((read_digits 0 s).0, r)

-- `$`, a length, that many bytes, and a line end.
abbrev read_bulk : Bytes → Option (Bytes × Bytes)
read_bulk [] = none
read_bulk (c ∷ s) =
    if c == b'$'
    then (read_count s >>= λ (n, r).
        strip_prefix crlf (drop n r) >>= λ after. some (take n r, after))
    else none

read_bulks : ℕ → Bytes → Option (List Bytes)
read_bulks zero s = some []
read_bulks (suc n) s = read_bulk s >>= λ (p, r). read_bulks n r >>= λ parts. some (p ∷ parts)

-- An array of bulk strings.
pub decode : Bytes → Option (List Bytes)
unfolding read_bulks
decode [] = none
decode (c ∷ s) = if c == b'*' then (read_count s >>= λ (n, r). read_bulks n r) else none

read_count-to_string_ℕ :
    (n : ℕ) (r : Bytes) → read_count (to_string_ℕ n ++ (crlf ++ r)) ≡ some (n, r)
read_count-to_string_ℕ n r =
    rw (read_digits-to_string_ℕ n (crlf ++ r) (unfold is_digit in refl))
      (rw (strip_prefix-append crlf r))

read_bulk-append :
    (p r : Bytes)
    → read_bulk (b'$' ∷ (to_string_ℕ (length p) ++ (crlf ++ (p ++ (crlf ++ r))))) ≡ some (p, r)
read_bulk-append p r =
    rw (read_count-to_string_ℕ (length p) (p ++ (crlf ++ r)))
      (rw (drop-append p (crlf ++ r), take-append p (crlf ++ r), strip_prefix-append crlf r))

read_bulks-bulk_strings :
    (parts : List Bytes) → read_bulks (length parts) (bulk_strings parts) ≡ some parts
unfolding read_bulks bulk_strings
read_bulks-bulk_strings [] = refl
read_bulks-bulk_strings (p ∷ parts) =
    rw (read_bulk-append p (bulk_strings parts)) (rw (read_bulks-bulk_strings parts))

-- The server reads back the words of the command, whatever bytes they hold.
pub decode-encode_command :
    (command : Bytes) → decode (encode_command command) ≡ some (words command)
unfolding decode encode_command
decode-encode_command command =
    rw (read_count-to_string_ℕ (length (words command)) (bulk_strings (words command)))
      (read_bulks-bulk_strings (words command))

-- No byte of the text is white space.
abbrev pub NoSpace : Bytes → Type 0
NoSpace = All (λ c. is_space c ≡ false)

words_from-NoSpace :
    (cur w rest : Bytes) → NoSpace w → words_from cur (w ++ rest) ≡ words_from (cur ++ w) rest
unfolding words_from
words_from-NoSpace cur [] rest h = rw append-nil
words_from-NoSpace cur (c ∷ w) rest (hc, h) =
    rw hc (words_from-NoSpace (cur ++ c ∷ []) w rest h)
    ∙ ap (λ k. words_from k rest) (append_assoc cur (c ∷ []) w)

flushed-nonempty : (w : Bytes) → w ≢ [] → flushed w ≡ w ∷ []
flushed-nonempty [] h = absurd (h refl)
flushed-nonempty (c ∷ w) h = refl

-- A word, a space and the rest.
words-space : (w rest : Bytes) → NoSpace w → w ≢ [] → words (w ++ 32 ∷ rest) ≡ w ∷ words rest
unfolding words words_from is_space
words-space w rest h k =
    words_from-NoSpace [] w (32 ∷ rest) h ∙ ap (λ l. l ++ words rest) (flushed-nonempty w k)

words_one : (w : Bytes) → NoSpace w → w ≢ [] → words w ≡ w ∷ []
unfolding words words_from
words_one w h k =
    ap (words_from []) (sym (append-nil w)) ∙ words_from-NoSpace [] w [] h ∙ flushed-nonempty w k

abbrev auth : Bytes
auth = codes "AUTH"

auth-NoSpace : NoSpace auth
unfolding is_space
auth-NoSpace = (refl, (refl, (refl, (refl, tt))))

-- The password reaches the server as one argument if it holds no white space.
pub auth_plain :
    (password : Bytes)
    → NoSpace password
    → password ≢ []
    → decode (encode_command (codes "AUTH " ++ password)) ≡ some (codes "AUTH" ∷ password ∷ [])
auth_plain password h k =
    decode-encode_command (codes "AUTH " ++ password)
    ∙ ap some (words-space auth password auth-NoSpace (cc) ∙ ap (◌∷◌ auth) (words_one password h k))

-- A password of two words without white space and a space between them is sent as two arguments, which
-- Redis takes for a user and a password.
pub auth_split :
    (a b : Bytes)
    → NoSpace a
    → a ≢ []
    → NoSpace b
    → b ≢ []
    → decode (encode_command (codes "AUTH " ++ (a ++ 32 ∷ b))) ≡ some (codes "AUTH" ∷ a ∷ b ∷ [])
auth_split a b ha ka hb kb =
    decode-encode_command (codes "AUTH " ++ (a ++ 32 ∷ b))
    ∙ ap some (
        words-space auth (a ++ 32 ∷ b) auth-NoSpace (cc)
        ∙ ap (◌∷◌ auth) (words-space a b ha ka ∙ ap (◌∷◌ a) (words_one b hb kb)))

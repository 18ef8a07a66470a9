-- ===== src/Icmp.antt =====
-- The ICMP echo request of plugins/ping/check_ping.cpp and plugins/fping/check_fping.cpp: `in_cksum`, the same
-- text in both files, and the packet that `pingHost` fills in. Bytes are in memory order, and a 16-bit word
-- is little-endian, as on x86 and ARM.
pub mod Checksum
use netmon_plugins.Cpp.Result.{Result, returns, undefined, ◌>>=◌}
use netmon_plugins.Prelude.{
  ltb, if◌then◌else◌, ℕ, ◌+◌, ◌-◌, ◌*◌, ◌/◌, ◌%◌, ◌^◌, List, [], ◌∷◌, ◌++◌, ◌≡◌, refl,
}
use netmon_plugins.Prelude.Text.{Bytes}

-- `while (nleft > 1) { sum += *w++; nleft -= 2; }`, and the last byte of an odd length, without the limit of the `int`.
unfoldable pub sum_words : ℕ → Bytes → ℕ
sum_words sum [] = sum
sum_words sum (b ∷ []) = sum + b
sum_words sum (lo ∷ hi ∷ rest) = sum_words (sum + (lo + 256 * hi)) rest

-- `sum = (sum >> 16) + (sum & 0xffff)`
abbrev pub fold_once : ℕ → ℕ
fold_once sum = sum / 2 ^ 16 + sum % 2 ^ 16

-- The two foldings, and `answer = ~sum` in an `unsigned short`.
unfoldable pub folded : ℕ → ℕ
folded sum = let s = fold_once sum in 2 ^ 16 - 1 - (s + s / 2 ^ 16) % 2 ^ 16

-- `int sum` overflows exactly if the last sum does not fit.
unfoldable pub in_cksum : Bytes → Result ℕ
in_cksum b = if ltb (sum_words 0 b) (2 ^ 31) then returns (folded (sum_words 0 b)) else undefined

-- A 16-bit field.
abbrev pub store16 : ℕ → Bytes
store16 v = v % 256 ∷ v / 256 % 256 ∷ []

abbrev zeros : ℕ → Bytes
zeros ℕ.zero = []
zeros (ℕ.suc n) = 0 ∷ zeros n

-- `struct icmp`, 28 bytes: type `ICMP_ECHO`, code, checksum, identifier, sequence number, and zeros.
abbrev pub packet : ℕ → ℕ → ℕ → Bytes
packet cksum id seq = 8 ∷ 0 ∷ (store16 cksum ++ (store16 id ++ (store16 seq ++ zeros 20)))

-- What is sent: the checksum is computed over the packet with a zero in its place.
unfoldable pub echo_request : ℕ → ℕ → Result Bytes
echo_request pid i = in_cksum (packet 0 pid i) >>= λ cksum. returns (packet cksum pid i)

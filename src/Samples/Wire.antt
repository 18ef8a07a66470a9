-- ===== src/Samples/Wire.antt =====
-- The checksum, Base64, the HTTP client and the Redis protocol at concrete inputs.
use netmon_plugins.Cpp.Convert.{is_space}
use netmon_plugins.Cpp.Result.{returns, ◌>>=◌}
use netmon_plugins.HttpApi.Base64.{encode}
use netmon_plugins.HttpApi.Rfc4648.{decode, decode-encode_iff}
use netmon_plugins.Icmp.{in_cksum, sum_words, store16}
use netmon_plugins.Icmp.Checksum.{in_cksum-valid}
use netmon_plugins.Prelude.{◌≡◌, ◌↔◌, ◌%◌, arith, [], ◌∷◌, ◌++◌, some, ℕ, length}
use netmon_plugins.Prelude.Text.{Bytes, codes}
use netmon_plugins.Redis.Decoding
use netmon_plugins.Redis.Decoding.{decode-encode_command, auth_split}
use netmon_plugins.Redis.Protocol.{encode_command, words}

abbrev packet_head : Bytes
packet_head = 8 ∷ 0 ∷ []

abbrev packet_tail : Bytes
packet_tail = 1 ∷ 2 ∷ 3 ∷ 4 ∷ []

in_cksum-valid_example :
    (in_cksum (packet_head ++ (store16 0 ++ packet_tail)) >>= λ v.
    in_cksum (packet_head ++ (store16 v ++ packet_tail)))
    ≡ returns 0
unfolding sum_words
in_cksum-valid_example = in_cksum-valid packet_head packet_tail tt (omega arith)

abbrev word : ℕ
word = 513

decode-encode_iff_example :
    (decode (encode (codes "bob:p")) ≡ codes "bob:p") ↔ (length (codes "bob:p") % 3 ≡ 0)
decode-encode_iff_example =
    decode-encode_iff (codes "bob:p") (ground arith) (omega arith) (omega arith)

decode-encode_command_example :
    Decoding.decode (encode_command (codes "AUTH pw")) ≡ some (words (codes "AUTH pw"))
decode-encode_command_example = decode-encode_command (codes "AUTH pw")

spaced_password :
    Decoding.decode (encode_command (codes "AUTH my pw"))
    ≡ some (codes "AUTH" ∷ codes "my" ∷ codes "pw" ∷ [])
unfolding is_space
spaced_password =
    auth_split (codes "my") (codes "pw") (ground arith) (λ p. ground arith) (ground arith)
      (λ p. ground arith)

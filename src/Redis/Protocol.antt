-- ===== src/Redis/Protocol.antt =====
-- `sendRedisCommand` and `extractInfoValue` of plugins/redis/check_redis.cpp (the POSIX branch).
use netmon_plugins.Cpp.Convert.{is_space}
use netmon_plugins.Cpp.Decimal.{to_string_ℕ}
use netmon_plugins.HttpApi.Response.{crlf, until_zero}
use netmon_plugins.Prelude.{
  ◌-◌, Bool, ◌&&◌, ◌==◌, ltb, if◌then◌else◌, List, [], ◌∷◌, ◌++◌, Option, none, some, length,
  get_or,
}
use netmon_plugins.Prelude.Text.{Bytes, codes, split_at_first}

-- A word that has ended, unless it is empty.
abbrev pub flushed : Bytes → List Bytes
flushed [] = []
flushed (c ∷ w) = (c ∷ w) ∷ []

-- `while (iss >> part) parts.push_back(part);`, behind the word `cur`.
unfoldable pub words_from : Bytes → Bytes → List Bytes
words_from cur [] = flushed cur
words_from cur (c ∷ s) =
    let next = words_from [] s in
    let longer = words_from (cur ++ c ∷ []) s in if is_space c then flushed cur ++ next else longer

unfoldable pub words : Bytes → List Bytes
words command = words_from [] command

-- `cmd << "$" << p.length() << "\r\n" << p << "\r\n"` for each part.
unfoldable pub bulk_strings : List Bytes → Bytes
bulk_strings [] = []
bulk_strings (p ∷ parts) =
    b'$' ∷ (to_string_ℕ (length p) ++ (crlf ++ (p ++ (crlf ++ bulk_strings parts))))

unfoldable pub encode_command : Bytes → Bytes
encode_command command =
    b'*' ∷ (to_string_ℕ (length (words command)) ++ (crlf ++ bulk_strings (words command)))

-- `response.length() > 2 && response[response.length()-2] == '\r'`
abbrev pub looks_complete : Bytes → Bool
looks_complete r = ltb 2 (length r) && (get_or r (length r - 2) 0 == 13)

-- The loop over `recv`, at the pieces that are still to come.
unfoldable pub receive : Bytes → List Bytes → Bytes
receive response [] = response
receive response (piece ∷ pieces) =
    let longer = response ++ until_zero piece in
    let more = receive longer pieces in if looks_complete longer then longer else more

-- The connection: what comes back for the bytes that are sent, or nothing if `send` fails.
unfoldable pub send_command : (Bytes → Option (List Bytes)) → Bytes → Bytes
send_command server command = elim (server (encode_command command)) [
  | none ↦ []
  | some pieces ↦ receive [] pieces
]

-- `info.find("\r\n", pos)`, and if that fails `info.find("\n", pos)`.
abbrev pub until_line_end : Bytes → Bytes
until_line_end s = elim (split_at_first crlf s) [
  | some (a, r) ↦ a
  | none ↦ elim (split_at_first (10 ∷ []) s) [ some (a, r) ↦ a | none ↦ [] ]
]

unfoldable pub extract_info_value : Bytes → Bytes → Bytes
extract_info_value info key = elim (split_at_first (key ++ codes ":") info) [
  | none ↦ []
  | some (a, r) ↦ until_line_end r
]

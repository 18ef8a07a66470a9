-- ===== src/HttpApi/Response.antt =====
-- The end of `httpGetAuth` in src/common/http_api.cpp: how the response is collected from the pieces that
-- `recv` returns, and how the body and the status code are cut out of it. The text stands there twice: over
-- HTTPS the call of `std::stoi` is in no `try` block.
use netmon_plugins.Cpp.Convert.{stoi}
use netmon_plugins.Cpp.Result.{Result, returns, ◌>>=◌, catch_all}
use netmon_plugins.Prelude.{
  Bool, true, false, ◌==◌, if◌then◌else◌, List, [], ◌∷◌, ◌++◌, Option, none, some, ℤ, pos,
}
use netmon_plugins.Prelude.Text.{Bytes, codes, split_at_first}

-- `buffer[bytes] = '\0'; fullResponse += buffer;` appends the piece up to its first zero byte.
abbrev pub until_zero : Bytes → Bytes
until_zero [] = []
until_zero (c ∷ s) = if c == 0 then [] else c ∷ until_zero s

unfoldable pub collect : List Bytes → Bytes
collect [] = []
collect (piece ∷ pieces) = until_zero piece ++ collect pieces

abbrev pub crlf : Bytes
crlf = 13 ∷ 10 ∷ []

-- The text up to the next space.
abbrev pub before_space : Bytes → Option Bytes
before_space s = elim (split_at_first (codes " ") s) [ some (a, r) ↦ some a | none ↦ none ]

-- `headers.substr(codeStart, codeEnd - codeStart)`. Where no space follows `HTTP/`, `find` returns `npos` and
-- `codeStart` is `npos + 1`, which is 0.
unfoldable pub status_text : Bytes → Option Bytes
status_text headers = elim (split_at_first (codes "HTTP/") headers) [
  | none ↦ none
  | some (earlier, behind) ↦ elim (split_at_first (codes " ") behind) [
    | some (version, rest) ↦ before_space rest
    | none ↦ before_space headers
  ]
]

abbrev pub guarded : Bool → Result ℤ → Result ℤ
guarded true m = catch_all m (pos 0)
guarded false m = m

unfoldable pub status_of : Bool → Bytes → Result ℤ
status_of plain headers = elim (status_text headers) [
  | none ↦ returns (pos 0)
  | some t ↦ guarded plain (stoi t)
]

-- The body that is returned, and `statusCode`; `plain` is true over HTTP.
unfoldable pub parse_response : Bool → Bytes → Result (Bytes × ℤ)
parse_response plain full = elim (split_at_first (crlf ++ crlf) full) [
  | none ↦ returns ([], pos 0)
  | some (headers, body) ↦ status_of plain headers >>= λ code. returns (body, code)
]

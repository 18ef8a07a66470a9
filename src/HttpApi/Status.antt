-- ===== src/HttpApi/Status.antt =====
-- What `httpGetAuth` returns for a response in the form of RFC 7230.
use netmon_plugins.Cpp.Convert.{fits, int_max, stoi-to_string_self}
use netmon_plugins.Cpp.Decimal.{to_string, to_string-Lacks}
use netmon_plugins.Cpp.Result.{returns}
use netmon_plugins.HttpApi.Response.{crlf, status_text, status_of, parse_response}
use netmon_plugins.Prelude.{Bool, true, false, [], ◌∷◌, ◌++◌, some, ℤ, ◌≡◌, arith, Lacks}
use netmon_plugins.Prelude.Search.{
  split_found, strip_prefix-append, split_at_first-append, split_at_first-byte,
}
use netmon_plugins.Prelude.Text.{Bytes, codes, split_at_first}

-- A status line and the header fields: a version, a code, and a rest that starts behind the next space.
abbrev pub head : Bytes → ℤ → Bytes → Bytes
head version code rest = codes "HTTP/" ++ (version ++ 32 ∷ (to_string code ++ 32 ∷ rest))

status_text-head :
    (version rest t : Bytes)
    → Lacks 32 version
    → Lacks 32 t
    → status_text (codes "HTTP/" ++ (version ++ 32 ∷ (t ++ 32 ∷ rest))) ≡ some t
unfolding status_text
status_text-head version rest t hv ht = ground (
  arith,
  split_found (codes "HTTP/") (codes "HTTP/" ++ (version ++ 32 ∷ (t ++ 32 ∷ rest)))
      (version ++ 32 ∷ (t ++ 32 ∷ rest))
      (strip_prefix-append (codes "HTTP/") (version ++ 32 ∷ (t ++ 32 ∷ rest))),
  split_at_first-byte 32 version (t ++ 32 ∷ rest) hv,
  split_at_first-byte 32 t rest ht,
)

guarded_number :
    (plain : Bool) (code : ℤ) (h : Bytes)
    → fits int_max code ≡ true
    → status_text h ≡ some (to_string code)
    → status_of plain h ≡ returns code
unfolding status_of
guarded_number true code h fit e = rw (e, status_of) (rw (stoi-to_string_self code fit))
guarded_number false code h fit e = rw (e, status_of) (rw (stoi-to_string_self code fit))

-- The body and the code of a response whose head has a version without a space and a code that fits an
-- `int`, and ends at its first blank line, over HTTP and over HTTPS.
pub parse_response-head :
    (plain : Bool) (version rest body : Bytes) (code : ℤ)
    → Lacks 32 version
    → fits int_max code ≡ true
    → split_at_first (crlf ++ crlf) (head version code rest ++ (crlf ++ crlf))
      ≡ some (head version code rest, [])
    → parse_response plain (head version code rest ++ ((crlf ++ crlf) ++ body))
      ≡ returns (body, code)
unfolding parse_response
parse_response-head plain version rest body code hv fit ended = ground (
  arith,
  split_at_first-append (crlf ++ crlf) (head version code rest) body ended,
  guarded_number plain code (head version code rest) fit
      (status_text-head version rest (to_string code) hv (to_string-Lacks 32 (omega arith) code)),
)

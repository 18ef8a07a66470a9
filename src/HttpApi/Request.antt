-- ===== src/HttpApi/Request.antt =====
-- The request that `httpGetAuth` of src/common/http_api.cpp builds, and the function from its arguments to
-- the body and the status code. `exchange` is the network: whether TLS is used, host, port and request give
-- the pieces that `recv` or `SSL_read` returns, or nothing if resolving, connecting or sending fails.
use netmon_plugins.Cpp.Decimal.{to_string}
use netmon_plugins.Cpp.Result.{Result, returns}
use netmon_plugins.HttpApi.Base64.{encode}
use netmon_plugins.HttpApi.Response.{collect, parse_response}
use netmon_plugins.Prelude.{
  Bool, ◌&&◌, ◌||◌, not, if◌then◌else◌, List, [], ◌∷◌, ◌++◌, Option, none, some, is_empty, ℤ, pos,
  eqb_ℤ,
}
use netmon_plugins.Prelude.Text.{Bytes, codes, concat}

abbrev pub line : Bytes → Bytes
line t = t ++ (13 ∷ 10 ∷ [])

-- `username + ":" + password`
abbrev pub credentials : Bytes → Bytes → Bytes
credentials username password = username ++ b':' ∷ password

unfoldable pub request : Bytes → ℤ → Bytes → Bytes → Bytes → Bytes
request host port path username password = concat (
    line (codes "GET " ++ (path ++ codes " HTTP/1.1"))
    ∷ line (
        concat (
          codes "Host: "
          ∷ host
          ∷ (if eqb_ℤ port (pos 80) || eqb_ℤ port (pos 443)
              then []
              else codes ":" ++ to_string port)
          ∷ []))
    ∷ line (codes "Connection: close")
    ∷ line (codes "User-Agent: NetMon-Plugins/1.0")
    ∷ line (codes "Accept: application/json, text/plain, */*")
    ∷ (if is_empty username
        then []
        else line (codes "Authorization: Basic " ++ encode (credentials username password)))
    ∷ line []
    ∷ [])

-- `built_with_ssl` is `NETMON_SSL_ENABLED`.
unfoldable pub http_get_auth :
    (Bool → Bytes → ℤ → Bytes → Option (List Bytes))
    → Bool
    → Bytes
    → ℤ
    → Bytes
    → Bool
    → Bytes
    → Bytes
    → Result (Bytes × ℤ)
http_get_auth exchange built_with_ssl host port path use_ssl username password =
    elim (exchange (built_with_ssl && use_ssl) host port
      (request host port path username password)) [
        | none ↦ returns ([], pos 0)
        | some pieces ↦ parse_response (not (built_with_ssl && use_ssl)) (collect pieces)
      ]

-- `httpGet`
unfoldable pub http_get :
    (Bool → Bytes → ℤ → Bytes → Option (List Bytes))
    → Bool
    → Bytes
    → ℤ
    → Bytes
    → Bool
    → Result (Bytes × ℤ)
http_get exchange built_with_ssl host port path use_ssl =
    http_get_auth exchange built_with_ssl host port path use_ssl [] []

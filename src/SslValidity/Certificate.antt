-- ===== src/SslValidity/Certificate.antt =====
-- `checkSslCertificate` of plugins/ssl_validity/check_ssl_validity.cpp (the POSIX branches), with and without
-- OpenSSL, as the calls that it makes and the days that it finds. What the operating system and OpenSSL
-- answer is the argument. The calls that only set options of a context or a session are left out, and so are
-- the bytes of the issuer and the subject, which the plugin copies and never shows.
use netmon_plugins.Cpp.Convert.{to_int, negated}
use netmon_plugins.Prelude.{
  ℕ, suc, ◌/◌, ◌≡◌, Bool, true, false, if◌then◌else◌, List, [], ◌∷◌, ◌++◌, not, ◌&&◌, arith, Option,
  none, some, ℤ, pos, negsuc, ◌-ℤ◌, minus_one,
}

-- Whose name is read from a certificate.
pub data Name : Type 0 where
  issuer subject : Name

-- The calls that take, use or give back a resource. `X509_get_issuer_name` and `X509_get_subject_name` stand with the
-- `X509_NAME_oneline` that is called on what they return.
pub data Call : Type 0 where
  ssl_ctx_new getaddrinfo socket setsockopt connect freeaddrinfo ssl_new ssl_set_fd ssl_connect :
      Call
  get_peer_certificate x509_get_not_after asn1_time_to_tm x509_free ssl_free close ssl_ctx_free :
      Call
  x509_name_oneline openssl_free : Name → Call

-- Whether each step succeeds, and `mktime` of the certificate's end, if it has one that can be read.
pub record Answers : Type 0 where
  pub has_context : Bool
  pub resolves : Bool
  pub opens : Bool
  pub connects : Bool
  pub has_session : Bool
  -- whether `SSL_connect` succeeds; by `SSL_VERIFY_PEER` it fails where the certificate is not accepted
  pub shakes_hands : Bool
  pub has_certificate : Bool
  pub not_after : Option ℤ
  -- there is an end that `ASN1_TIME_to_tm` does not read
  pub unreadable_end : Bool
  -- `X509_NAME_oneline` has returned a string
  pub has_name : Name → Bool

-- Division in C++ rounds towards zero.
abbrev pub quotient : ℤ → ℕ → ℤ
quotient (pos n) k = pos (n / k)
quotient (negsuc n) k = negated (suc n / k)

-- `daysUntilExpiry`, which is 0 where there is no end.
unfoldable pub days_until_expiry : Option ℤ → ℤ → ℤ
days_until_expiry none now = pos 0
days_until_expiry (some expiry) now = to_int (quotient (expiry -ℤ now) 86400)

abbrev pub has_end : Answers → Bool
has_end a = elim a.not_after [ some expiry ↦ true | none ↦ a.unreadable_end ]

-- A name is read as a string that is allocated, and given back once it is copied.
abbrev pub copy_name : Answers → Name → List Call
copy_name a n = x509_name_oneline n ∷ (if a.has_name n then openssl_free n ∷ [] else [])

-- What is done with a certificate.
unfoldable pub read_certificate : Answers → List Call
read_certificate a =
    x509_get_not_after
    ∷ ((if has_end a then asn1_time_to_tm ∷ [] else [])
        ++ (copy_name a issuer ++ (copy_name a subject ++ x509_free ∷ [])))

-- The calls, and the days, or nothing where the function returns `false`.
unfoldable pub certificate_days : Answers → ℤ → List Call × Option ℤ
certificate_days a now =
    if not a.has_context
    then (ssl_ctx_new ∷ [], none)
    else if not a.resolves
    then (ssl_ctx_new ∷ getaddrinfo ∷ ssl_ctx_free ∷ [], none)
    else if not a.opens
    then (ssl_ctx_new ∷ getaddrinfo ∷ socket ∷ freeaddrinfo ∷ ssl_ctx_free ∷ [], none)
    else if not a.connects
    then (
      ssl_ctx_new ∷ getaddrinfo ∷ socket ∷ setsockopt ∷ setsockopt ∷ connect ∷ freeaddrinfo ∷ close
          ∷ ssl_ctx_free ∷ [],
      none,
    )
    else let connected =
        ssl_ctx_new ∷ getaddrinfo ∷ socket ∷ setsockopt ∷ setsockopt ∷ connect ∷ freeaddrinfo
        ∷ ssl_new ∷ [] in
      if not a.has_session
      then (connected ++ (close ∷ ssl_ctx_free ∷ []), none)
      else if not a.shakes_hands
      then (connected ++ (ssl_set_fd ∷ ssl_connect ∷ ssl_free ∷ close ∷ ssl_ctx_free ∷ []), none)
      else if not a.has_certificate
      then (
        connected
            ++ (ssl_set_fd ∷ ssl_connect ∷ get_peer_certificate ∷ ssl_free ∷ close ∷ ssl_ctx_free
                ∷ []),
        none,
      )
      else (
        connected
            ++ (ssl_set_fd ∷ ssl_connect ∷ get_peer_certificate ∷ []
                ++ (read_certificate a ++ ssl_free ∷ close ∷ ssl_ctx_free ∷ [])),
        some (days_until_expiry a.not_after now),
      )

-- Without OpenSSL: is the port open?
unfoldable pub port_days : Answers → List Call × Option ℤ
port_days a =
    if not a.resolves
    then (getaddrinfo ∷ [], none)
    else if not a.opens
    then (getaddrinfo ∷ socket ∷ freeaddrinfo ∷ [], none)
    else (
      getaddrinfo ∷ socket ∷ setsockopt ∷ setsockopt ∷ connect ∷ freeaddrinfo ∷ close ∷ [],
      (if a.connects then some minus_one else none),
    )

unfoldable pub check_ssl_certificate : Bool → Answers → ℤ → List Call × Option ℤ
check_ssl_certificate built_with_ssl a now =
    if built_with_ssl then certificate_days a now else port_days a

-- What is held.
pub record Held : Type 0 where
  pub context : Bool
  pub addresses : Bool
  pub open_socket : Bool
  pub session : Bool
  pub certificate : Bool
  pub issuer_string : Bool
  pub subject_string : Bool

abbrev pub nothing_held : Held
nothing_held = record {
  context = false;
  addresses = false;
  open_socket = false;
  session = false;
  certificate = false;
  issuer_string = false;
  subject_string = false;
}

-- The state behind a step that may only be taken where `allowed` holds.
abbrev pub step_if : Bool → Held → Option Held
step_if allowed h = if allowed then some h else none

-- The effect of a call, or nothing where it uses or gives back what is not held, or takes what is held
-- already.
abbrev pub effect : Answers → Call → Held → Option Held
effect a ssl_ctx_new h = step_if (not h.context) (record h { context = a.has_context })
effect a getaddrinfo h = step_if (not h.addresses) (record h { addresses = a.resolves })
effect a socket h = step_if (h.addresses && not h.open_socket) (record h { open_socket = a.opens })
effect a setsockopt h = step_if h.open_socket h
effect a connect h = step_if (h.addresses && h.open_socket) h
effect a freeaddrinfo h = step_if h.addresses (record h { addresses = false })
effect a ssl_new h = step_if (h.context && not h.session) (record h { session = a.has_session })
effect a ssl_set_fd h = step_if (h.session && h.open_socket) h
effect a ssl_connect h = step_if (h.session && h.open_socket) h
effect a get_peer_certificate h =
    step_if (h.session && not h.certificate) (record h { certificate = a.has_certificate })
effect a x509_get_not_after h = step_if h.certificate h
effect a asn1_time_to_tm h = step_if h.certificate h
effect a (x509_name_oneline issuer) h =
    step_if (h.certificate && not h.issuer_string) (record h { issuer_string = a.has_name issuer })
effect a (x509_name_oneline subject) h =
    step_if (h.certificate && not h.subject_string)
      (record h { subject_string = a.has_name subject })
effect a (openssl_free issuer) h = step_if h.issuer_string (record h { issuer_string = false })
effect a (openssl_free subject) h = step_if h.subject_string (record h { subject_string = false })
effect a x509_free h = step_if h.certificate (record h { certificate = false })
effect a ssl_free h = step_if (h.session) (record h { session = false })
effect a close h = step_if h.open_socket (record h { open_socket = false })
effect a ssl_ctx_free h = step_if h.context (record h { context = false })

abbrev pub effects : Answers → List Call → Held → Option Held
effects a [] h = some h
effects a (c ∷ calls) h = elim (effect a c h) [ none ↦ none | some h' ↦ effects a calls h' ]

-- With and without OpenSSL, whatever the system answers: no call uses or gives back a resource that is not
-- held, the strings of the two names among them, none takes one twice, and everything is given back at the end.
pub check_ssl_certificate-effects :
    (built_with_ssl : Bool) (a : Answers) (now : ℤ)
    → effects a (check_ssl_certificate built_with_ssl a now).0 nothing_held ≡ some nothing_held
unfolding check_ssl_certificate certificate_days read_certificate port_days
check_ssl_certificate-effects built_with_ssl a now = ground arith

-- ===== src/Ntp/Sockets.antt =====
-- The sockets of the two queries.
use netmon_plugins.Ntp.{
  Call, getaddrinfo, socket, freeaddrinfo, setsockopt, recvfrom, close, sendto, Answers, Doubles,
  Protocol, try_addresses, create_udp_socket, dialogue, query,
}
use netmon_plugins.Prelude.Text.{Bytes, codes}
use netmon_plugins.Prelude.{
  ◌≡◌, refl, Bool, true, false, not, ◌&&◌, if◌then◌else◌, List, [], ◌∷◌, ◌++◌, Option, none, some,
  arith, Option-cases, inl, inr, ◌∙◌, ap,
}

-- What is held: a list of addresses, and a socket.
pub record Held : Type 0 where
  pub addresses : Bool
  pub open_socket : Bool

abbrev pub nothing_held : Held
nothing_held = record { addresses = false; open_socket = false }

abbrev step_if : Bool → Held → Option Held
step_if allowed h = if allowed then some h else none

-- The effect of a call, or nothing where it uses or gives back what is not held, or takes what is held already.
abbrev pub effect : Call → Held → Option Held
effect (getaddrinfo found) h = step_if (not h.addresses) (record h { addresses = found })
effect (socket opened) h =
    step_if (h.addresses && not h.open_socket) (record h { open_socket = opened })
effect freeaddrinfo h = step_if h.addresses (record h { addresses = false })
effect setsockopt h = step_if h.open_socket h
effect recvfrom h = step_if h.open_socket h
effect (sendto packet) h = step_if h.open_socket h
effect close h = step_if h.open_socket (record h { open_socket = false })

unfoldable pub effects : List Call → Held → Option Held
effects [] h = some h
effects (c ∷ calls) h = elim (effect c h) [ none ↦ none | some h' ↦ effects calls h' ]

effects-append :
    (calls more : List Call) (h h' : Held)
    → effects calls h ≡ some h'
    → effects (calls ++ more) h ≡ effects more h'
unfolding effects
effects-append [] more h h' e = ground arith
effects-append (c ∷ calls) more h h' e = elim (Option-cases (effect c h)) [
  | inl none_left ↦ absurd (ground arith)
  | inr (k, step) ↦ ground (arith, effects-append calls more k h')
]

try_addresses-effects :
    (opened : List Bool)
    → effects (try_addresses opened).0 (record { addresses = true; open_socket = false })
      ≡ some (record { addresses = true; open_socket = (try_addresses opened).1 })
unfolding effects try_addresses
try_addresses-effects [] = refl
try_addresses-effects (true ∷ rest) = refl
try_addresses-effects (false ∷ rest) = try_addresses-effects rest

-- Behind `createUdpSocket` the addresses are given back, and a socket is open if no error is reported.
create_udp_socket-effects :
    (a : Answers)
    → effects (create_udp_socket a).0 nothing_held
      ≡ some (record {
        addresses = false;
        open_socket = elim (create_udp_socket a).1 [ none ↦ true | some e ↦ false ];
      })
unfolding create_udp_socket effects
create_udp_socket-effects a = go a.addresses
  where
    last_free :
        (opened : Bool)
        → effects (freeaddrinfo ∷ []) (record { addresses = true; open_socket = opened })
          ≡ some (record {
            addresses = false;
            open_socket = elim (if opened then none else some (codes "Cannot create UDP socket")) [
              | none ↦ true
              | some e ↦ false
            ];
          })
    last_free true = refl
    last_free false = refl

    go :
        (opened : List Bool)
        → effects (create_udp_socket (record a { addresses = opened })).0 nothing_held
          ≡ some (record {
            addresses = false;
            open_socket = elim (create_udp_socket (record a { addresses = opened })).1 [
              | none ↦ true
              | some e ↦ false
            ];
          })
    go [] = refl
    go (b ∷ rest) =
        effects-append (try_addresses (b ∷ rest)).0 (freeaddrinfo ∷ []) _ _
          (try_addresses-effects (b ∷ rest))
        ∙ last_free (try_addresses (b ∷ rest)).1

dialogue-effects :
    {D : Type 0} (d : Doubles D) (p : Protocol) (a : Answers)
    → effects (dialogue d p a).0 (record { addresses = false; open_socket = true })
      ≡ some nothing_held
unfolding dialogue effects
dialogue-effects d p a = ground arith

-- Whatever the system answers, no call of a query uses or gives back what is not held, and neither a socket nor
-- a list of addresses is left at the end.
pub query-effects :
    {D : Type 0} (d : Doubles D) (p : Protocol) (a : Answers)
    → effects (query d p a).0 nothing_held ≡ some nothing_held
unfolding query
query-effects d p a = go (create_udp_socket a).1 refl
  where
    left : Option Bytes → Held
    left error = record {
      addresses = false;
      open_socket = elim error [ none ↦ true | some e ↦ false ];
    }

    go :
        (error : Option Bytes)
        → (create_udp_socket a).1 ≡ error
        → effects (query d p a).0 nothing_held ≡ some nothing_held
    go (some message) e =
        rw (e, query) (create_udp_socket-effects a ∙ ap (λ error. some (left error)) e)
    go none e =
        rw (e, query)
          (effects-append (create_udp_socket a).0 (dialogue d p a).0 nothing_held _
              (create_udp_socket-effects a ∙ ap (λ error. some (left error)) e)
            ∙ dialogue-effects d p a)

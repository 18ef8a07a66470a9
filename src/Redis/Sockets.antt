-- ===== src/Redis/Sockets.antt =====
-- `connectToRedis` of plugins/redis/check_redis.cpp (the POSIX branch), as the calls that it makes. What the
-- operating system answers is the argument; the calls are the trace.
use netmon_plugins.Prelude.{
  ◌≡◌, Bool, true, false, if◌then◌else◌, List, [], ◌∷◌, not, ◌&&◌, arith, Option, none, some,
}

-- The calls that take or give back a resource.
pub data Call : Type 0 where
  getaddrinfo socket setsockopt connect freeaddrinfo close : Call

-- `getaddrinfo(…) == 0`, `socket(…) >= 0`, `connect(…) == 0`.
pub record Answers : Type 0 where
  pub resolves : Bool
  pub opens : Bool
  pub connects : Bool

-- The calls in their order, and the value that is returned.
unfoldable pub connect_to_redis : Answers → List Call × Bool
connect_to_redis a =
    if not a.resolves
    then (getaddrinfo ∷ [], false)
    else if not a.opens
    then (getaddrinfo ∷ socket ∷ freeaddrinfo ∷ [], false)
    else if not a.connects
    then (
      getaddrinfo ∷ socket ∷ setsockopt ∷ setsockopt ∷ connect ∷ freeaddrinfo ∷ close ∷ [],
      false,
    )
    else (getaddrinfo ∷ socket ∷ setsockopt ∷ setsockopt ∷ connect ∷ freeaddrinfo ∷ [], true)

-- What is held: an address list, and a socket.
pub record Held : Type 0 where
  pub addresses : Bool
  pub open_socket : Bool

abbrev pub nothing_held : Held
nothing_held = record { addresses = false; open_socket = false }

-- The effect of a call, or nothing where it uses or gives back what is not held, or takes a resource that is
-- held already.
abbrev pub effect : Answers → Call → Held → Option Held
effect a getaddrinfo h = if h.addresses then none else some (record h { addresses = a.resolves })
effect a socket h =
    if h.addresses
    then (if h.open_socket then none else some (record h { open_socket = a.opens }))
    else none
effect a setsockopt h = if h.open_socket then some h else none
effect a connect h = if h.addresses then (if h.open_socket then some h else none) else none
effect a freeaddrinfo h = if h.addresses then some (record h { addresses = false }) else none
effect a close h = if h.open_socket then some (record h { open_socket = false }) else none

abbrev pub effects : Answers → List Call → Held → Option Held
effects a [] h = some h
effects a (c ∷ calls) h = elim (effect a c h) [ none ↦ none | some h' ↦ effects a calls h' ]

-- Whatever the system answers, nothing is used that is not held, the address list is given back, and a
-- socket stays open exactly if the connection is reported as made, which is if all three steps succeed.
pub connect_to_redis-effects :
    (a : Answers)
    → (effects a (connect_to_redis a).0 nothing_held
        ≡ some (record { addresses = false; open_socket = (connect_to_redis a).1 }))
      × ((connect_to_redis a).1 ≡ (a.resolves && a.opens && a.connects))
unfolding connect_to_redis
connect_to_redis-effects a = (ground arith, ground arith)

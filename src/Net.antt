-- ===== src/Net.antt =====
-- Programs that talk over a socket, as the plugins under plugins/ do: a program makes calls of the operating
-- system and continues with their outcomes. A world decides the outcomes, and a run leaves a trace.
pub mod Logic
pub mod Tcp
pub mod Held
pub mod Waits
pub mod Wire
use netmon_plugins.Prelude.{ℤ, Bool, List, [], ◌∷◌, Option}
use netmon_plugins.Prelude.Text.{Bytes}

-- The calls that succeed or fail. `getaddrinfo` has a host and a port, `setsockopt` and `select` their
-- `tv_sec`, `send` and `sendto` the bytes.
pub data Call : Type 0 where
  getaddrinfo : Bytes → ℤ → Call
  socket fcntl connect getsockopt freeaddrinfo close : Call
  setsockopt select : ℤ → Call
  send sendto : Bytes → Call

-- `received` is a call of `recv` or `recvfrom` with the bytes in the buffer, where it does not fail.
pub data Event : Type 0 where
  called : Call → Bool → Event
  received : Option Bytes → Event

pub data Io (A : Type 0) : Type 0 where
  finish : A → Io A
  -- make a call and go on with whether it succeeded
  perform : Call → (Bool → Io A) → Io A
  receive : (Option Bytes → Io A) → Io A

infixl 5 ◌>>=◌
abbrev pub ◌>>=◌ : {A B : Type 0} → Io A → (A → Io B) → Io B
finish a >>= f = f a
perform c k >>= f = perform c (λ b. k b >>= f)
receive k >>= f = receive (λ r. k r >>= f)

infixl 5 ◌>>◌
abbrev pub ◌>>◌ : {A B : Type 0} → Io A → Io B → Io B
p >> q = p >>= λ _. q

abbrev pub call : Call → Io Bool
call c = perform c finish

abbrev pub recv : Io (Option Bytes)
recv = receive finish

-- What the system and the peers answer, which may depend on all that happened before, the latest event first.
pub record World : Type 0 where
  pub succeeds : List Event → Call → Bool
  pub delivers : List Event → Option Bytes

-- The trace behind `past`, and the result.
abbrev pub run : {A : Type 0} → World → List Event → Io A → List Event × A
run w past (finish a) = ([], a)
run w past (perform c k) =
    let e = called c (w.succeeds past c) in
    let rest = run w (e ∷ past) (k (w.succeeds past c)) in (e ∷ rest.0, rest.1)
run w past (receive k) =
    let e = received (w.delivers past) in
    let rest = run w (e ∷ past) (k (w.delivers past)) in (e ∷ rest.0, rest.1)

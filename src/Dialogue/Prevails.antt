-- ===== src/Dialogue/Prevails.antt =====
-- Conversations that come to a good end where nothing fails and no reply is a refusal.
use netmon_plugins.Dialogue.Talk.{connected_to, demand, say, part_with, reporting}
use netmon_plugins.Net.{
  Call, Event, called, received, Io, finish, perform, receive, World, run, ◌>>=◌,
}
use netmon_plugins.Net.Tcp.{connect_tcp, read_response, send_command, close_with, text_of}
use netmon_plugins.Prelude.Text.{Bytes}
use netmon_plugins.Prelude.{
  Bool, true, false, ◌≡◌, refl, List, [], ◌∷◌, Option, if◌then◌else◌, is_empty, ℤ, ap,
}

module _ (is_refusal : Bytes → Bool) where
  -- Every call succeeds, and no reply is refused.
  pub record IsKind (w : World) : Type 0 where
    pub fine : (past : List Event) (c : Call) → w.succeeds past c ≡ true
    pub accepted : (past : List Event) → is_refusal (text_of (w.delivers past)) ≡ false

  -- What the program comes to in such a world.
  abbrev pub ComesTo : {A : Type 0} → Io A → (A → Type 0) → Type 0
  ComesTo (finish a) Q = Q a
  ComesTo (perform c k) Q = ComesTo (k true) Q
  ComesTo (receive k) Q = (r : Option Bytes) → is_refusal (text_of r) ≡ false → ComesTo (k r) Q

  ComesTo-then :
      {A B : Type 0} (p : Io A) (f : A → Io B) (P : A → Type 0) (Q : B → Type 0)
      → ComesTo p P
      → ((a : A) → P a → ComesTo (f a) Q)
      → ComesTo (p >>= f) Q
  ComesTo-then (finish a) f P Q h g = g a h
  ComesTo-then (perform c k) f P Q h g = ComesTo-then (k true) f P Q h g
  ComesTo-then (receive k) f P Q h g = λ r kind. ComesTo-then (k r) f P Q (h r kind) g

  ComesTo-run :
      {A : Type 0} (w : World) (past : List Event) (p : Io A) (Q : A → Type 0)
      → IsKind w
      → ComesTo p Q
      → Q (run w past p).1
  ComesTo-run w past (finish a) Q kind h = h
  ComesTo-run w past (perform c k) Q kind h =
      rw (kind.fine past c) (ComesTo-run w (called c true ∷ past) (k true) Q kind h)
  ComesTo-run w past (receive k) Q kind h =
      ComesTo-run w (received (w.delivers past) ∷ past) (k (w.delivers past)) Q kind
        (h (w.delivers past) (kind.accepted past))

  -- The result is good.
  pub record Prevails (p : Io Bool) : Type 0 where
    pub good : ComesTo p (λ b. b ≡ true)

  pub close_with-Prevails : Prevails (close_with true)
  close_with-Prevails = record { good = refl }

  pub if-Prevails :
      (b : Bool) {p q : Io Bool} → Prevails p → Prevails q → Prevails (if b then p else q)
  if-Prevails true h k = h
  if-Prevails false h k = k

  pub connected_to-Prevails :
      (host : Bytes) (port timeout : ℤ) {talk : Io Bool}
      → Prevails talk
      → Prevails (connected_to host port timeout talk)
  unfolding connect_tcp
  connected_to-Prevails host port timeout h = record { good = h.good }

  accepted_reply :
      (r : Option Bytes) (continue : Bytes → Io Bool)
      → is_refusal (text_of r) ≡ false
      → ComesTo (continue (text_of r)) (λ b. b ≡ true)
      → ComesTo
          (if is_refusal (text_of r) then close_with false else continue (text_of r))
          (λ b. b ≡ true)
  accepted_reply r continue kind h = rw kind h

  pub demand-Prevails :
      (timeout : ℤ) {continue : Bytes → Io Bool}
      → ((r : Bytes) → Prevails (continue r))
      → Prevails (demand is_refusal timeout continue)
  unfolding read_response
  demand-Prevails timeout {continue = continue} h = record {
    good = λ r kind. accepted_reply r continue kind (h (text_of r)).good;
  }

  pub say-Prevails :
      (command : Bytes) {continue : Io Bool} → Prevails continue → Prevails (say command continue)
  unfolding send_command
  say-Prevails command h = record { good = h.good }

  pub part_with-Prevails :
      (timeout : ℤ) (command : Bytes) → Prevails (part_with timeout command (λ _. true))
  unfolding send_command read_response
  part_with-Prevails timeout command = record { good = λ r kind. refl }

  -- The check reports what a good end is reported as.
  pub reporting-Prevails :
      {A : Type 0} (host : Bytes) (missing : A) (report : Bool → A) {talk : Io Bool} (w : World)
      → is_empty host ≡ false
      → IsKind w
      → Prevails talk
      → (run w [] (reporting host missing talk report)).1 ≡ report true
  reporting-Prevails host missing report {talk = talk} w given kind h = rw given (
      ComesTo-run w [] (talk >>= λ b. finish (report b)) (λ a. a ≡ report true) kind
        (ComesTo-then talk (λ b. finish (report b)) (λ b. b ≡ true) (λ a. a ≡ report true) h.good
          (λ b e. ap report e)))

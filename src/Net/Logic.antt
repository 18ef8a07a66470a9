-- ===== src/Net/Logic.antt =====
-- A logic for programs over a socket: a machine reads the trace, and a program is judged by recursion on its
-- calls, whatever the world answers.
use netmon_plugins.Net.{Event, called, received, Io, finish, perform, receive, ◌>>=◌, World, run}
use netmon_plugins.Prelude.Text.{Bytes}
use netmon_plugins.Prelude.{
  Bool, true, false, List, [], ◌∷◌, Option, none, some, ◌≡◌, ap, if◌then◌else◌,
}

-- The machine's next state, or nothing where the event is not allowed.
abbrev pub Machine : Type 0 → Type 0
Machine S = Event → S → Option S

-- There is a value, and it is as wanted.
abbrev pub Then : {S : Type 0} → Option S → (S → Type 0) → Type 0
Then none P = ⊥
Then (some s) P = P s

Then_mono :
    {S : Type 0} (o : Option S) {P R : S → Type 0} → ((s : S) → P s → R s) → Then o P → Then o R
Then_mono none f h = absurd h
Then_mono (some s) f h = f s h

pub Then_eq : {S : Type 0} (o : Option S) (s : S) → Then o (λ t. t ≡ s) → o ≡ some s
Then_eq none s h = absurd h
Then_eq (some t) s h = ap some h

abbrev after : {S : Type 0} → Option S → (S → Option S) → Option S
after none f = none
after (some s) f = f s

Then-after :
    {S : Type 0} (o : Option S) {P : S → Type 0} (R : S → Type 0) (f : S → Option S)
    → Then o P
    → ((s : S) → P s → Then (f s) R)
    → Then (after o f) R
Then-after none R f h g = absurd h
Then-after (some s) R f h g = g s h

module _ {S : Type 0} (m : Machine S) where
  abbrev pub advance : List Event → S → Option S
  advance [] s = some s
  advance (e ∷ es) s = after (m e s) (advance es)

  -- Whatever the calls answer, every event of the program is allowed, and it finishes as wanted.
  abbrev pub Holds : {A : Type 0} → Io A → (A → S → Type 0) → S → Type 0
  Holds (finish a) Q s = Q a s
  Holds (perform c k) Q s = (b : Bool) → Then (m (called c b) s) (Holds (k b) Q)
  Holds (receive k) Q s = (r : Option Bytes) → Then (m (received r) s) (Holds (k r) Q)

  pub Holds-mono :
      {A : Type 0} (p : Io A) {Q R : A → S → Type 0} (s : S)
      → ((a : A) (t : S) → Q a t → R a t)
      → Holds p Q s
      → Holds p R s
  Holds-mono (finish a) s f h = f a s h
  Holds-mono (perform c k) s f h = λ b. Then_mono _ (λ t. Holds-mono (k b) t f) (h b)
  Holds-mono (receive k) s f h = λ r. Then_mono _ (λ t. Holds-mono (k r) t f) (h r)

  pub Holds->>= :
      {A B : Type 0} (p : Io A) (f : A → Io B) (Q : B → S → Type 0) (s : S)
      → Holds p (λ a. Holds (f a) Q) s
      → Holds (p >>= f) Q s
  Holds->>= (finish a) f Q s h = h
  Holds->>= (perform c k) f Q s h = λ b. Then_mono _ (λ t. Holds->>= (k b) f Q t) (h b)
  Holds->>= (receive k) f Q s h = λ r. Then_mono _ (λ t. Holds->>= (k r) f Q t) (h r)

  -- The first part's own promise is enough for what follows it.
  pub Holds-then :
      {A B : Type 0} (p : Io A) (f : A → Io B) {P : A → S → Type 0} (Q : B → S → Type 0) (s : S)
      → Holds p P s
      → ((a : A) (t : S) → P a t → Holds (f a) Q t)
      → Holds (p >>= f) Q s
  Holds-then p f Q s h g = Holds->>= p f Q s (Holds-mono p s g h)

  pub Holds-if :
      {A : Type 0} (b : Bool) (p q : Io A) (Q : A → S → Type 0) (s : S)
      → Holds p Q s
      → Holds q Q s
      → Holds (if b then p else q) Q s
  Holds-if true p q Q s h k = h
  Holds-if false p q Q s h k = k

  -- What holds of a program holds of its runs in every world.
  pub Holds-run :
      {A : Type 0} (w : World) (past : List Event) (p : Io A) (Q : A → S → Type 0) (s : S)
      → Holds p Q s
      → Then (advance (run w past p).0 s) (Q (run w past p).1)
  Holds-run w past (finish a) Q s h = h
  Holds-run w past (perform c k) Q s h =
      Then-after _ _ (advance _) (h (w.succeeds past c))
        (λ t. Holds-run w (called c (w.succeeds past c) ∷ past) (k (w.succeeds past c)) Q t)
  Holds-run w past (receive k) Q s h =
      Then-after _ _ (advance _) (h (w.delivers past))
        (λ t. Holds-run w (received (w.delivers past) ∷ past) (k (w.delivers past)) Q t)

-- ===== src/Dialogue/Stream.antt =====
-- The loop over `recv` of plugins/zookeeper/check_zookeeper.cpp, where the server ends its stream.
use netmon_plugins.Dialogue.Zookeeper
use netmon_plugins.Dialogue.Zookeeper.{go_on, piece_of, report, reported, Config}
use netmon_plugins.Net.{Io, finish, Event, called, received, send, World, run}
use netmon_plugins.Prelude.Text.{Bytes, contains}
use netmon_plugins.Prelude.{
  ℕ, zero, suc, ◌+◌, ◌<◌, ◌≤◌, Bool, true, false, ◌≡◌, ◌≢◌, refl, List, [], ◌∷◌, ◌++◌, Option, none,
  some, leb, leb→le, ap, not, if◌then◌else◌, arith, Bool-cases, inl, inr, ◌⊎◌,
}

-- How often `recv` has been called.
abbrev pub count_received : List Event → ℕ
count_received [] = 0
count_received (received r ∷ es) = suc (count_received es)
count_received (called c b ∷ es) = count_received es

-- From the call number `n` on the stream is over, so that `recv` returns 0, or `recv` fails.
abbrev pub EndsAfter : World → ℕ → Type 0
EndsAfter w n =
    (past : List Event)
    → n ≤ count_received past
    → (w.delivers past ≡ none) ⊎ (w.delivers past ≡ some [])

HasResult : {A : Type 0} → Option A → Type 0
HasResult none = ⊥
HasResult (some a) = Unit

go_on-HasResult :
    (w : World) (past : List Event) (rest : Bytes → Io (Option Bytes)) (response : Bytes)
    (piece : Option Bytes)
    → (piece ≢ none → (s : Bytes) → HasResult (run w past (rest s)).1)
    → HasResult (run w past (go_on rest response piece)).1
unfolding HasResult
go_on-HasResult w past rest response none h = tt
go_on-HasResult w past rest response (some piece) h =
    elim (Bool-cases (contains (10 ∷ []) (response ++ piece))) [
      | inl stop ↦ rw stop tt
      | inr more ↦ rw more (h (ground arith) (response ++ piece))
    ]

no_piece : (r : Option Bytes) → (r ≡ none) ⊎ (r ≡ some []) → piece_of r ≡ none
no_piece r (inl e) = ap piece_of e
no_piece r (inr e) = ap piece_of e

still_open :
    (w : World) (n : ℕ) (past : List Event)
    → EndsAfter w n
    → piece_of (w.delivers past) ≢ none
    → count_received past < n
still_open w n past ends given = elim (Bool-cases (leb n (count_received past))) [
  | inl over ↦
      absurd (given (no_piece (w.delivers past) (ends past (leb→le n (count_received past) over))))
  | inr before ↦ ground arith
]

receive_line-HasResult :
    (w : World) (n : ℕ)
    → EndsAfter w n
    → (fuel : ℕ) (past : List Event) (response : Bytes) → count_received past ≤ n
    → n < fuel + count_received past
    → HasResult (run w past (Zookeeper.receive_line fuel response)).1
unfolding Zookeeper.receive_line
receive_line-HasResult w n ends zero past response before enough = absurd (omega arith)
receive_line-HasResult w n ends (suc fuel) past response before enough =
    go_on-HasResult w (received (w.delivers past) ∷ past) (Zookeeper.receive_line fuel) response
      (piece_of (w.delivers past))
      (λ given s.
        receive_line-HasResult w n ends fuel (received (w.delivers past) ∷ past) s
          (omega (arith, still_open w n past ends given)) (omega arith))

some_result : {A : Type 0} (o : Option A) → HasResult o → (a : A) × (o ≡ some a)
unfolding HasResult
some_result none h = absurd h
some_result (some a) h = (a, refl)

behind_send :
    (w : World) (n : ℕ) (past : List Event) (sent : Bool)
    → EndsAfter w n
    → count_received past ≤ n
    → HasResult
        (run w past (if not sent then finish (some []) else Zookeeper.receive_line (suc n) [])).1
unfolding HasResult
behind_send w n past true ends none_yet =
    receive_line-HasResult w n ends (suc n) past [] none_yet (omega arith)
behind_send w n past false ends none_yet = tt

-- Where each call of `recv` from the number `n` on returns 0, as at the end of a stream, or fails, the reply to a
-- command is complete after `n + 1` calls at most, whatever the server sends before.
pub send_zookeeper_command-ends :
    (w : World) (n : ℕ) (past : List Event) (command : Bytes)
    → EndsAfter w n
    → count_received past ≤ n
    → (response : Bytes) × ((run w past (Zookeeper.send_zookeeper_command (suc n) command)).1
        ≡ some response)
unfolding Zookeeper.send_zookeeper_command
send_zookeeper_command-ends w n past command ends none_yet = some_result _ (
    behind_send w n
      (called (send (command ++ 10 ∷ [])) (w.succeeds past (send (command ++ 10 ∷ []))) ∷ past)
      (w.succeeds past (send (command ++ 10 ∷ []))) ends none_yet)

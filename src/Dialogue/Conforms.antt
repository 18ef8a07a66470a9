-- ===== src/Dialogue/Conforms.antt =====
-- The three promises of a conversation at once: it closes its socket, it waits a bounded number of times, and it
-- plays a script.
use netmon_plugins.Dialogue.Closing.{
  connected_to-GivesBack, demand-GivesBack, say-GivesBack, part_with-GivesBack, if-GivesBack,
  reporting-GivesBack,
}
use netmon_plugins.Dialogue.Script.{Script, over, line, playing, offline, demanded, farewell}
use netmon_plugins.Dialogue.Script.Playing.{
  Plays, if-Plays, close_with-Plays, connected_to-Plays, demand-Plays, say-Plays, part_with-Plays,
  Reports-run, reporting-Reports, IsConversation,
}
use netmon_plugins.Dialogue.Talk.{connected_to, demand, say, part_with, reporting}
use netmon_plugins.Dialogue.Waiting.{
  connected_to-WaitsAtMost, demand-WaitsAtMost, say-WaitsAtMost, part_with-WaitsAtMost,
  if-WaitsAtMost, reporting-WaitsAtMost,
}
use netmon_plugins.Net.{Io, World, run}
use netmon_plugins.Net.Held.{
  holding, nothing_held, socket_held, GivesBack, GivesBack-run, close_with-GivesBack,
}
use netmon_plugins.Net.Logic.{advance}
use netmon_plugins.Net.Tcp.{close_with}
use netmon_plugins.Net.Waits.{
  waiting, waits, WaitsAtMost, WaitsAtMost-run, IsAllowed, close_with-WaitsAtMost,
}
use netmon_plugins.Prelude.Text.{Bytes}
use netmon_plugins.Prelude.{ℕ, suc, Bool, false, [], some, if◌then◌else◌, is_empty, ◌≡◌, ℤ}

pub record Conforms (timeout : ℤ) (talk : Io Bool) (n : ℕ) (s : Script) : Type 0 where
  pub closes : GivesBack talk socket_held
  pub bounded : WaitsAtMost timeout talk n
  pub plays : Plays talk (playing s)

-- A run in a world gives back all that it takes, and keeps to its waits.
abbrev pub IsTidy : {A : Type 0} → World → ℤ → ℕ → Io A → Type 0
IsTidy w timeout n p =
    (advance holding (run w [] p).0 nothing_held ≡ some nothing_held)
    × IsAllowed (advance (waiting timeout) (run w [] p).0 (waits n))

module _ (timeout : ℤ) where
  pub close_with-Conforms : (b : Bool) (n : ℕ) → Conforms timeout (close_with b) n (over b)
  close_with-Conforms b n = record {
    closes = close_with-GivesBack b;
    bounded = close_with-WaitsAtMost timeout b n;
    plays = close_with-Plays b;
  }

  pub if-Conforms :
      (b : Bool) {p q : Io Bool} {n : ℕ} {s t : Script}
      → Conforms timeout p n s
      → Conforms timeout q n t
      → Conforms timeout (if b then p else q) n (if b then s else t)
  if-Conforms b {p = p} {q = q} {n = n} {s = s} {t = t} h k = record {
    closes = if-GivesBack b p q h.closes k.closes;
    bounded = if-WaitsAtMost timeout b p q n h.bounded k.bounded;
    plays = if-Plays b p q s t h.plays k.plays;
  }

  pub demand-Conforms :
      (is_refusal : Bytes → Bool) {continue : Bytes → Io Bool} {n : ℕ} {next : Bytes → Script}
      → ((r : Bytes) → Conforms timeout (continue r) n (next r))
      → Conforms timeout (demand is_refusal timeout continue) (suc n) (demanded is_refusal next)
  demand-Conforms is_refusal {continue = continue} {n = n} {next = next} h = record {
    closes = demand-GivesBack is_refusal timeout continue (λ r. (h r).closes);
    bounded = demand-WaitsAtMost is_refusal timeout continue n (λ r. (h r).bounded);
    plays = demand-Plays is_refusal timeout continue next (λ r. (h r).plays);
  }

  pub say-Conforms :
      (command : Bytes) {continue : Io Bool} {n : ℕ} {s : Script}
      → Conforms timeout continue n s
      → Conforms timeout (say command continue) n (line command s)
  say-Conforms command {continue = continue} {n = n} {s = s} h = record {
    closes = say-GivesBack command continue h.closes;
    bounded = say-WaitsAtMost timeout command continue n h.bounded;
    plays = say-Plays command continue s h.plays;
  }

  pub part_with-Conforms :
      (command : Bytes) (result : Bytes → Bool) (n : ℕ)
      → Conforms timeout (part_with timeout command result) (suc n) (farewell command result)
  part_with-Conforms command result n = record {
    closes = part_with-GivesBack timeout command result;
    bounded = part_with-WaitsAtMost timeout command result n;
    plays = part_with-Plays timeout command result;
  }

  -- What follows for the whole check.
  module _ {A : Type 0} (host : Bytes) (port : ℤ) (missing : A) (report : Bool → A) {talk : Io Bool}
      {n : ℕ} {s : Script} (h : Conforms timeout talk n s) (w : World) where
    abbrev pub whole : Io A
    whole = reporting host missing (connected_to host port timeout talk) report

    pub check-IsTidy : IsTidy w timeout n whole
    check-IsTidy = (
      GivesBack-run w whole (
          reporting-GivesBack host missing (connected_to host port timeout talk) report
            (connected_to-GivesBack host port timeout talk h.closes)),
      WaitsAtMost-run timeout w whole n (
          reporting-WaitsAtMost timeout host missing (connected_to host port timeout talk) report n
            (connected_to-WaitsAtMost host port timeout timeout talk n h.bounded)),
    )

    pub check_plays : is_empty host ≡ false → IsConversation w whole report s
    check_plays given = Reports-run w whole report s (
        reporting-Reports host missing (connected_to host port timeout talk) report (offline s)
          given (connected_to-Plays host port timeout talk s h.plays))

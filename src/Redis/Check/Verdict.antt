-- ===== src/Redis/Check/Verdict.antt =====
-- What an OK result of check_redis says about the server.
use netmon_plugins.Cpp.Result.{Result, returns, throws, undefined, std_exception, other_exception}
use netmon_plugins.Plugin.{ok, PluginResult}
use netmon_plugins.Prelude.{
  true, ◌||◌, ℕ, ◌∙◌, sym, append_assoc, List, [], ◌∷◌, ◌++◌, Option, none, some, ℤ, ◌≡◌, ◌≢◌, ◌⊎◌,
  inl, inr, refl, arith, Bool-cases,
}
use netmon_plugins.Prelude.Text.{Bytes, codes, contains}
use netmon_plugins.Prelude.Search.{Has, contains-Has}
use netmon_plugins.Redis.Check.{Config, guarded, info_of, judge, reply_has, ping_and_info, check}
use netmon_plugins.Redis.Protocol.{send_command}

abbrev Server : Type 0
Server = Bytes → Option (List Bytes)

-- The reply to a command has a text somewhere in it.
abbrev pub RepliesWith : Server → Bytes → Bytes → Type 0
RepliesWith server command text = Has text (send_command server command)

accepted_reply :
    (c : ℕ) (text reply : Bytes)
    → (contains text reply || contains (c ∷ text) reply) ≡ true
    → Has text reply
accepted_reply c text reply h = elim (Bool-cases (contains text reply)) [
  | inl e ↦ contains-Has text reply e
  | inr e ↦
      let (a, b, p) = contains-Has (c ∷ text) reply (ground arith) in
      (a ++ c ∷ [], b, p ∙ sym (append_assoc a (c ∷ []) (text ++ b)))
]

-- The reply to PING has PONG in it, and that to INFO is read as a text that is not empty.
abbrev pub Answers : Server → Type 0
Answers server =
    RepliesWith server (codes "PING") (codes "PONG")
    × ((info : Bytes) × (info_of (send_command server (codes "INFO")) ≡ returns info) × (info ≢ []))

-- There is no password, or the reply to AUTH has OK in it.
abbrev pub LogsIn : Server → Config → Type 0
LogsIn server c = (c.password ≡ []) ⊎ RepliesWith server (codes "AUTH " ++ c.password) (codes "OK")

judge-ok :
    (ratio : ℤ → ℤ → Bytes) (reply : Bytes) (r : PluginResult)
    → guarded (judge ratio reply) ≡ returns r
    → r.code ≡ ok
    → (info : Bytes) × (info_of reply ≡ returns info) × (info ≢ [])
unfolding judge
judge-ok ratio reply r h k = go (info_of reply) refl
  where
    go :
        (m : Result Bytes)
        → info_of reply ≡ m
        → (info : Bytes) × (info_of reply ≡ returns info) × (info ≢ [])
    go (returns []) e = absurd (ground arith)
    go (returns (a ∷ info)) e = (a ∷ info, e, ground arith)
    go (throws (std_exception what)) e = absurd (ground arith)
    go (throws other_exception) e = absurd (ground arith)
    go undefined e = absurd (ground arith)

module _ (ratio : ℤ → ℤ → Bytes) (connection : Bytes → ℤ → Option Server) (c : Config)
    (r : PluginResult) where
  ping_and_info-ok :
      (server : Server) → (ping_and_info ratio server).1 ≡ returns r → r.code ≡ ok → Answers server
  unfolding ping_and_info
  ping_and_info-ok server h k =
      elim (Bool-cases (reply_has (codes "PONG") (send_command server (codes "PING")))) [
        | inl e ↦ (
          accepted_reply b'+' (codes "PONG") _ e,
          judge-ok ratio (send_command server (codes "INFO")) r (ground arith) k,
        )
        | inr e ↦ absurd (ground arith)
      ]

  -- An OK result means that the plugin connected to the host and port of the options, that the reply to AUTH, if
  -- there is a password, has the text `OK` somewhere in it, that the reply to PING has `PONG` somewhere in it, and
  -- that the reply to INFO is read as a text that is not empty.
  pub redis_check-ok :
      (check ratio connection c).1 ≡ returns r
      → r.code ≡ ok
      → (server : Server) × (connection c.hostname c.port ≡ some server)
        × LogsIn server c
        × Answers server
  unfolding check
  redis_check-ok h k = go (connection c.hostname c.port) refl
    where
      login : (server : Server) → connection c.hostname c.port ≡ some server → LogsIn server c
      login server e =
          elim (Bool-cases
            (reply_has (codes "OK") (send_command server (codes "AUTH " ++ c.password)))) [
              | inl o ↦ inr (accepted_reply b'+' (codes "OK") _ o)
              | inr o ↦ inl (ground arith)
            ]

      go :
          (found : Option Server)
          → connection c.hostname c.port ≡ found
          → (server : Server) × (connection c.hostname c.port ≡ some server)
            × LogsIn server c
            × Answers server
      go none e = absurd (ground arith)
      go (some server) e = (server, e, login server e, ping_and_info-ok server (ground arith) k)

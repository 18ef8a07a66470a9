-- ===== src/Redis/Check/Trace.antt =====
-- What check_redis does on its connection.
use netmon_plugins.Prelude.{
  false, List, [], ◌∷◌, ◌++◌, map, Option, none, some, is_empty, ℤ, ◌≡◌, ◌⊎◌, inl, inr, refl,
  Bool-cases,
}
use netmon_plugins.Prelude.Text.{Bytes, codes}
use netmon_plugins.Redis.Check.{
  Config, Event, opened, sent, closed, reply_has, ping_and_info, check,
}
use netmon_plugins.Redis.Protocol.{send_command}

abbrev Server : Type 0
Server = Bytes → Option (List Bytes)

-- A connection that is opened is closed once, behind all commands.
abbrev pub IsClosed : List Event → Type 0
IsClosed events =
    (events ≡ [])
    ⊎ ((commands : List Bytes) × (events ≡ opened ∷ (map sent commands ++ closed ∷ [])))

ping_and_info-events :
    (ratio : ℤ → ℤ → Bytes) (server : Server)
    → (commands : List Bytes) × ((ping_and_info ratio server).0 ≡ map sent commands ++ closed ∷ [])
unfolding ping_and_info
ping_and_info-events ratio server =
    elim (Bool-cases (reply_has (codes "PONG") (send_command server (codes "PING")))) [
      | inl e ↦ (codes "PING" ∷ codes "INFO" ∷ [], rw e)
      | inr e ↦ (codes "PING" ∷ [], rw e)
    ]

-- Whatever the server answers, a connection that is opened is closed once, as the last thing that is done,
-- and nothing is sent if none is opened.
pub check-IsClosed :
    (ratio : ℤ → ℤ → Bytes) (connection : Bytes → ℤ → Option Server) (c : Config)
    → IsClosed (check ratio connection c).0
unfolding check
check-IsClosed ratio connection c = elim (Bool-cases (is_empty c.hostname)) [
  | inl e ↦ inl (rw e)
  | inr e ↦ go e (connection c.hostname c.port) refl
]
  where
    go :
        is_empty c.hostname ≡ false
        → (found : Option Server) → connection c.hostname c.port ≡ found
        → IsClosed (check ratio connection c).0
    go e none f = inl (rw (e, f))
    go e (some server) f = elim (Bool-cases (is_empty c.password)) [
      | inl p ↦
          let (commands, q) = ping_and_info-events ratio server in inr (commands, rw (e, f, p, q))
      | inr p ↦
          elim (Bool-cases
            (reply_has (codes "OK") (send_command server (codes "AUTH " ++ c.password)))) [
              | inl o ↦
                  let (commands, q) = ping_and_info-events ratio server in
                  inr ((codes "AUTH " ++ c.password) ∷ commands, rw (e, f, p, o, q))
              | inr o ↦ inr ((codes "AUTH " ++ c.password) ∷ [], rw (e, f, p, o))
            ]
    ]

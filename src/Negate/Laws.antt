-- ===== src/Negate/Laws.antt =====
-- The inverted exit code, and which arguments reach the command.
use netmon_plugins.Cpp.Result.{returns}
use netmon_plugins.Negate.{
  Config, invert_exit_code, actual_exit_code, check, negated_result, command_line, parse_argument,
  parse_arguments,
}
use netmon_plugins.Plugin.{unknown, exit_status, PluginResult, plain_result}
use netmon_plugins.Plugin.Args.{
  update, configured, help_option, is_option, parse_loop, parse_loop-update,
}
use netmon_plugins.Prelude.{
  Bool, not, ◌&&◌, ◌==◌, leb, if◌then◌else◌, ◌+◌, ◌-◌, ◌<◌, ℕ, ◌*◌, ◌%◌, ◌≤◌, ◌≡◌, ◌≢◌, refl, ◌∙◌,
  ap, sym, true, false, List, [], ◌∷◌, ◌++◌, ◌⊎◌, inl, inr, Bool-cases, is_empty, arith, append-nil,
  append_assoc, All,
}
use netmon_plugins.Prelude.Text.{Bytes, codes, text_eq}

-- A command that ends by itself with the code 0, 1 or 2 gives 2 less that code; one that a signal ends, or that ends
-- with another code, gives 3. `core` is the flag of a core dump in the wait status.
pub check-inverts :
    (system : Bytes → ℕ) (c : Config) (code signal : ℕ) (core : Bool)
    → c.command ≢ []
    → code < 256
    → signal < 127
    → system (command_line c) ≡ code * 256 + (if core && not (signal == 0) then 128 else 0) + signal
    → (r : PluginResult) × (check system c ≡ returns r)
      × (exit_status r.code ≡ (if signal == 0 && leb code 2 then 2 - code else 3))
unfolding check
check-inverts system c code signal core named small few h = (
  negated_result (actual_exit_code (system (command_line c))),
  ground arith,
  rw h (unfold invert_exit_code actual_exit_code in ground arith),
)

-- A command that a signal ends is UNKNOWN, and so is one that exits with a code above 2.
pub check-unknown :
    (system : Bytes → ℕ) (c : Config)
    → (system (command_line c) % 128 ≢ 0) ⊎ (3 ≤ actual_exit_code (system (command_line c)))
    → (r : PluginResult) × (check system c ≡ returns r) × (r.code ≡ unknown)
unfolding check
check-unknown system c h = elim (Bool-cases (is_empty c.command)) [
  | inl nameless ↦ (plain_result unknown (codes "Command must be specified"), rw nameless, refl)
  | inr named ↦ (
    negated_result (actual_exit_code (system (command_line c))),
    rw named,
    unfold invert_exit_code actual_exit_code in ground arith,
  )
]

-- An argument that is none of the plugin's own options.
abbrev pub IsPlain : Bytes → Type 0
IsPlain a = (help_option a ≡ false) × (is_option (codes "-c") (codes "--command") a ≡ false)

abbrev running : Bytes → List Bytes → Config
running cmd xs = record { command = cmd; args = xs; in_command = true }

parse_argument-IsPlain :
    (cmd : Bytes) (xs : List Bytes) (a : Bytes)
    → IsPlain a
    → parse_argument (running cmd xs) a ≡ update (running cmd (xs ++ a ∷ []))
unfolding parse_argument
parse_argument-IsPlain cmd xs a (h, k) = rw (h, k)

parse_loop-plain :
    (cmd : Bytes) (done xs rest : List Bytes)
    → All IsPlain xs
    → parse_loop parse_argument (running cmd done) (xs ++ rest)
      ≡ parse_loop parse_argument (running cmd (done ++ xs)) rest
parse_loop-plain cmd done [] rest h = rw append-nil
parse_loop-plain cmd done (x ∷ xs) rest (hx, h) =
    parse_loop-update parse_argument _ _ x (xs ++ rest) (parse_argument-IsPlain cmd done x hx)
    ∙ parse_loop-plain cmd (done ++ x ∷ []) xs rest h
    ∙ ap (λ d. parse_loop parse_argument (running cmd d) rest) (append_assoc done (x ∷ []) xs)

parse_arguments-first :
    (cmd : Bytes) (xs : List Bytes)
    → IsPlain cmd
    → parse_arguments (cmd ∷ xs) ≡ parse_loop parse_argument (running cmd []) xs
unfolding parse_arguments
parse_arguments-first cmd xs (h, k) =
    parse_loop-update parse_argument _ _ cmd xs (unfold parse_argument in rw (h, k))

-- The first argument is the command, and all that follow are its own, as long as none is an option of the
-- plugin.
pub parse_arguments-plain :
    (cmd : Bytes) (xs : List Bytes)
    → IsPlain cmd
    → All IsPlain xs
    → parse_arguments (cmd ∷ xs)
      ≡ returns (configured (record { command = cmd; args = xs; in_command = true }))
parse_arguments-plain cmd xs plain all_plain =
    parse_arguments-first cmd xs plain
    ∙ ap (parse_loop parse_argument (running cmd [])) (sym (append-nil xs))
    ∙ parse_loop-plain cmd [] xs [] all_plain
    ∙ (unfold parse_loop in refl)

parse_loop-command :
    (cmd v : Bytes) (xs : List Bytes)
    → parse_loop parse_argument (running cmd xs) (codes "-c" ∷ v ∷ [])
      ≡ returns (configured (running v xs))
unfolding parse_loop parse_argument text_eq
parse_loop-command cmd v xs = refl

-- A `-c` behind a command and arguments that are no options of the plugin is taken for the plugin's own:
-- its value replaces the command, and the other arguments stay.
pub parse_arguments-replaced :
    (cmd v : Bytes) (xs : List Bytes)
    → IsPlain cmd
    → All IsPlain xs
    → parse_arguments (cmd ∷ (xs ++ codes "-c" ∷ v ∷ []))
      ≡ returns (configured (record { command = v; args = xs; in_command = true }))
parse_arguments-replaced cmd v xs plain all_plain =
    parse_arguments-first cmd _ plain
    ∙ parse_loop-plain cmd [] xs (codes "-c" ∷ v ∷ []) all_plain
    ∙ parse_loop-command cmd v xs

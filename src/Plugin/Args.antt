-- ===== src/Plugin/Args.antt =====
-- The argument loop that every plugin's `parseArguments` has, and its `main`. A plugin gives the chain
-- of tests in the loop's body as a function from an argument to an action; the loop is written once.
use netmon_plugins.Cpp.Result.{Result, returns, throws, undefined, Exception, ◌>>=◌}
use netmon_plugins.Cpp.Convert.{stoi, fits, int_max, stoi-to_string_self}
use netmon_plugins.Cpp.Decimal.{to_string}
use netmon_plugins.Plugin.{PluginResult, Run, execute_plugin}
use netmon_plugins.Prelude.{ℤ, ◌≡◌, refl, Bool, true, List, [], ◌∷◌, ◌++◌, ◌||◌, ◌==◌, not}
use netmon_plugins.Prelude.Text.{Bytes, codes, text_eq}

-- What the body of the loop does at one argument.
pub data Action (C : Type 0) : Type 0 where
  -- print the usage text and `std::exit(0)`
  show_help : Action C
  -- no further argument is read
  update : C → Action C
  -- `if (i + 1 < argc)`: take the next argument, which may throw
  with_value : (Bytes → Result C) → Action C

-- The two kinds of value that most options have: `field = argv[++i]` and `field = std::stoi(argv[++i])`.
abbrev pub with_text : {C : Type 0} → (Bytes → C) → Action C
with_text put = with_value (λ v. returns (put v))

abbrev pub with_number : {C : Type 0} → (ℤ → C) → Action C
with_number put = with_value (λ v. stoi v >>= λ n. returns (put n))

pub data Parsed (C : Type 0) : Type 0 where
  configured : C → Parsed C
  help_shown : Parsed C

-- `strcmp(argv[i], short) == 0 || strcmp(argv[i], long) == 0`
abbrev pub is_option : Bytes → Bytes → Bytes → Bool
is_option short long a = text_eq a short || text_eq a long

abbrev pub help_option : Bytes → Bool
help_option = is_option (codes "-h") (codes "--help")

-- `argv[i][0] != '-'`, which holds of the empty argument
abbrev pub is_operand : Bytes → Bool
is_operand [] = true
is_operand (c ∷ s) = not (c == b'-')

-- `for (int i = 1; i < argc; i++)`, over the arguments from `argv[1]` on.
module _ {C : Type 0} (body : C → Bytes → Action C) where
  unfoldable pub parse_loop : C → List Bytes → Result (Parsed C)
  parse_loop c [] = returns (configured c)
  parse_loop c (a ∷ []) = elim (body c a) [
    | show_help ↦ returns help_shown
    | update c' ↦ returns (configured c')
    | with_value set ↦ returns (configured c)
  ]
  parse_loop c (a ∷ v ∷ rest) = elim (body c a) [
    | show_help ↦ returns help_shown
    | update c' ↦ parse_loop c' (v ∷ rest)
    | with_value set ↦ set v >>= λ c'. parse_loop c' rest
  ]

  pub parse_loop-nil : (c : C) → parse_loop c [] ≡ returns (configured c)
  unfolding parse_loop
  parse_loop-nil c = refl

  pub parse_loop-update :
      (c c' : C) (a : Bytes) (rest : List Bytes)
      → body c a ≡ update c'
      → parse_loop c (a ∷ rest) ≡ parse_loop c' rest
  unfolding parse_loop
  parse_loop-update c c' a [] h = rw (h, parse_loop)
  parse_loop-update c c' a (v ∷ rest) h = rw (h, parse_loop)

  pub parse_loop-with_value :
      (c c' : C) (a v : Bytes) (rest : List Bytes) (set : Bytes → Result C)
      → body c a ≡ with_value set
      → set v ≡ returns c'
      → parse_loop c (a ∷ v ∷ rest) ≡ parse_loop c' rest
  unfolding parse_loop
  parse_loop-with_value c c' a v rest set h k = rw (h, parse_loop) (rw k)

  pub parse_loop-throws :
      (c : C) (a v : Bytes) (rest : List Bytes) (set : Bytes → Result C) (e : Exception)
      → body c a ≡ with_value set
      → set v ≡ throws e
      → parse_loop c (a ∷ v ∷ rest) ≡ throws e
  unfolding parse_loop
  parse_loop-throws c a v rest set e h k = rw (h, parse_loop) (rw k)

-- An option whose value is read by `std::stoi`.
pub parse_loop-stoi :
    {C : Type 0} (body : C → Bytes → Action C) (c : C) (a : Bytes) (z : ℤ) (rest : List Bytes)
    (put : ℤ → C)
    → fits int_max z ≡ true
    → body c a ≡ with_value (λ v. stoi v >>= λ n. returns (put n))
    → parse_loop body c (a ∷ to_string z ∷ rest) ≡ parse_loop body (put z) rest
parse_loop-stoi body c a z rest put fit h =
    parse_loop-with_value body c (put z) a (to_string z) rest _ h (rw (stoi-to_string_self z fit))

-- How the process ends. `terminated` is `std::terminate`, after an exception that `main` does not catch.
pub data Process : Type 0 where
  exited : Run → Process
  terminated : Exception → Process
  undefined_run : Process

abbrev finish : Result Run → Process
finish (returns r) = exited r
finish (throws e) = terminated e
finish undefined = undefined_run

-- `main`: `plugin.parseArguments(argc, argv)` stands outside the handlers of `executePlugin`.
unfoldable pub run_main :
    {C : Type 0} → Bytes → Result (Parsed C) → (C → Result PluginResult) → Process
run_main usage (returns (configured c)) check = finish (execute_plugin (check c))
run_main usage (returns help_shown) check =
    exited (record { out = usage ++ codes "\n"; err = []; status = 0 })
run_main usage (throws e) check = terminated e
run_main usage undefined check = undefined_run

-- ===== src/Cpp/Result.antt =====
-- Exceptions as values. A computation returns, throws, or meets behaviour that C++ leaves undefined
-- (a signed overflow), which no handler catches.
use netmon_plugins.Prelude.Text.{Bytes}

-- `std_exception what` is any exception derived from `std::exception`, with its `what()`.
pub data Exception : Type 0 where
  std_exception : Bytes → Exception
  other_exception : Exception

pub data Result {ℓ} (A : Type ℓ) : Type ℓ where
  returns : A → Result A
  throws : Exception → Result A
  undefined : Result A

infixl 5 ◌>>=◌
abbrev pub ◌>>=◌ {ℓ κ} : {A : Type ℓ} {B : Type κ} → Result A → (A → Result B) → Result B
returns a >>= f = f a
throws e >>= f = throws e
undefined >>= f = undefined

-- `try { m } catch (const std::exception& e) { handler(e.what()) }`.
abbrev pub catch_std {ℓ} : {A : Type ℓ} → Result A → (Bytes → A) → Result A
catch_std (returns a) handler = returns a
catch_std (throws (std_exception what)) handler = returns (handler what)
catch_std (throws other_exception) handler = throws other_exception
catch_std undefined handler = undefined

-- `try { m } catch (...) { fallback }`.
abbrev pub catch_all {ℓ} : {A : Type ℓ} → Result A → A → Result A
catch_all (returns a) fallback = returns a
catch_all (throws e) fallback = returns fallback
catch_all undefined fallback = undefined

-- ===== src/Scripts/Effects.antt =====
-- What a script does: it calls the world outside (AWS, the file system, other programs, the clock),
-- which answers and may change, and it returns, raises, or exits by `sys.exit`.
use lambpie.Common.{ℕ, String, Bool, true, false, List, ◌∷◌}

-- the exceptions that the scripts meet
pub data Exn : Type 0 where
  -- botocore's ClientError: the code and the message of its response
  client_error : String → String → Exn
  file_not_found runtime_error os_error other_error : Exn

-- the answer to a call that may raise
pub data Answer (A : Type 0) : Type 0 where
  given : A → Answer A
  refused : Exn → Answer A

pub data Ended (A : Type 0) : Type 0 where
  returned : A → Ended A
  -- `sys.exit` with a status; with a message it is status 1
  exited : ℕ → Ended A
  raised : Exn → Ended A
  no_fuel : Ended A

-- An environment that answers the calls `C` of one script.
pub record World {C : Type 0} (Reply : C → Type 0) : Type 1 where
  pub State : Type 0
  pub answer : (c : C) → State → Reply c × State

-- The calls made so far, the latest first, and the environment as they left it.
pub record Session {C : Type 0} {R : C → Type 0} (W : World R) : Type 0 where
  pub world : W.State
  pub calls : List C

abbrev pub Act : {C : Type 0} {R : C → Type 0} → World R → Type 0 → Type 0
Act W A = Session W → Ended A × Session W

module _ {C : Type 0} {R : C → Type 0} {W : World R} where
  unfoldable pub pure : {A : Type 0} → A → Act W A
  pure a s = (returned a, s)

  unfoldable pub exit : {A : Type 0} → ℕ → Act W A
  exit n s = (exited n, s)

  unfoldable pub throw : {A : Type 0} → Exn → Act W A
  throw e s = (raised e, s)

  unfoldable pub out_of_fuel : {A : Type 0} → Act W A
  out_of_fuel s = (no_fuel, s)

  unfoldable pub perform : (c : C) → Act W (R c)
  perform c s =
      let (r, w) = W.answer c s.world in (returned r, record { world = w; calls = c ∷ s.calls })

  abbrev pub continue : {A B : Type 0} → Ended A × Session W → (A → Act W B) → Ended B × Session W
  continue (returned a, s) f = f a s
  continue (exited n, s) f = (exited n, s)
  continue (raised e, s) f = (raised e, s)
  continue (no_fuel, s) f = (no_fuel, s)

  infixl 10 ◌>>=◌ ◌>>◌
  unfoldable pub ◌>>=◌ : {A B : Type 0} → Act W A → (A → Act W B) → Act W B
  ◌>>=◌ m f s = continue (m s) f

  abbrev pub ◌>>◌ : {A B : Type 0} → Act W A → Act W B → Act W B
  m >> k = m >>= λ _. k

  -- an `if` statement
  unfoldable pub branch : {A : Type 0} → Bool → Act W A → Act W A → Act W A
  branch true m n = m
  branch false m n = n

  -- the value of an answer, or its exception
  unfoldable pub or_throw : {A : Type 0} → Answer A → Act W A
  or_throw (given a) = pure a
  or_throw (refused e) = throw e

  unfoldable pub handled :
      {A : Type 0} → (Exn → Bool) → Act W A → Ended A × Session W → Ended A × Session W
  handled caught handler (raised e, s) = branch (caught e) handler (throw e) s
  handled caught handler (returned a, s) = (returned a, s)
  handled caught handler (exited n, s) = (exited n, s)
  handled caught handler (no_fuel, s) = (no_fuel, s)

  -- a `try` whose `except` takes the exceptions of `caught`
  unfoldable pub recover : {A : Type 0} → (Exn → Bool) → Act W A → Act W A → Act W A
  recover caught m handler s = handled caught handler (m s)

-- ===== src/Compiler/Hoare.antt =====
-- Invariants of the methods of compiler.py, one rule for each way to build an action.
use lambpie.Common.{◌≡◌, refl, Bool, true, false, Option, none, some, String}
use mathlib.Core.Path.{subst}
use lambpie.Common.Dict.{Dict, lookup}
use lambpie.Compiler.Monad.{
  branch, Error, Result, ok, err, State, M, ◌>>=◌, continue, pure, raise, gets, modify, or_raise,
  item, key_error,
}

-- What holds of a result and the state that it comes with; nothing of an exception.
abbrev pub Ensures : {A : Type 0} → (State → Type 0) → (A → Type 0) → Result (A × State) → Type 0
Ensures P Q (ok (a, s)) = P s × Q a
Ensures P Q (err e) = Unit

-- From a state with `P`, if `m` returns, then `Q` holds of the result and `P` of the state.
pub record Keeps {A : Type 0} (P : State → Type 0) (Q : A → Type 0) (m : M A) : Type 0 where
  pub at : (s : State) → P s → Ensures P Q (m s)

abbrev pub Any : {A : Type 0} → A → Type 0
Any a = Unit

module _ {A : Type 0} {P : State → Type 0} {Q : A → Type 0} where
  pub Keeps-pure : (a : A) → Q a → Keeps P Q (pure a)
  unfolding pure
  Keeps-pure a q = record { at = λ s h. (h, q) }

  pub Keeps-raise : (e : Error) → Keeps P Q (raise e)
  unfolding raise
  Keeps-raise e = record { at = λ s h. tt }

  pub Keeps-gets : (f : State → A) → ((s : State) → P s → Q (f s)) → Keeps P Q (gets f)
  unfolding gets
  Keeps-gets f q = record { at = λ s h. (h, q s h) }

  pub Keeps-or_raise :
      (e : Error) (o : Option A) → ((a : A) → o ≡ some a → Q a) → Keeps P Q (or_raise e o)
  unfolding or_raise
  Keeps-or_raise e none q = record { at = λ s h. tt }
  Keeps-or_raise e (some a) q = record { at = λ s h. (h, q a refl) }

  pub Keeps-item :
      (k : String) (d : Dict A) → ((a : A) → lookup k d ≡ some a → Q a) → Keeps P Q (item k d)
  unfolding item
  Keeps-item k d q = Keeps-or_raise key_error (lookup k d) q

  pub Keeps-branch :
      (b : Bool) (m n : M A)
      → (b ≡ true → Keeps P Q m)
      → (b ≡ false → Keeps P Q n)
      → Keeps P Q (branch b m n)
  unfolding branch
  Keeps-branch true m n km kn = km refl
  Keeps-branch false m n km kn = kn refl

  -- What a run that returned gives.
  pub Keeps-ok :
      {m : M A}
      → Keeps P Q m
      → (s : State) → P s
      → (a : A) (s' : State) → m s ≡ ok (a, s')
      → P s' × Q a
  Keeps-ok k s h a s' e = subst (Ensures P Q) e (k.at s h)

pub Keeps-modify :
    {P : State → Type 0} (f : State → State)
    → ((s : State) → P s → P (f s))
    → Keeps P Any (modify f)
unfolding modify
Keeps-modify f p = record { at = λ s h. (p s h, tt) }

module _ {A B : Type 0} {P : State → Type 0} {Q : A → Type 0} {R : B → Type 0} where
  Ensures-continue :
      (r : Result (A × State)) (f : A → M B)
      → Ensures P Q r
      → ((a : A) → Q a → Keeps P R (f a))
      → Ensures P R (continue r f)
  Ensures-continue (ok (a, s)) f h k = (k a h.1).at s h.0
  Ensures-continue (err e) f h k = tt

  pub Keeps-bind :
      {m : M A} {f : A → M B}
      → Keeps P Q m
      → ((a : A) → Q a → Keeps P R (f a))
      → Keeps P R (m >>= f)
  unfolding ◌>>=◌
  Keeps-bind {m} {f} km kf = record { at = λ s h. Ensures-continue (m s) f (km.at s h) kf }

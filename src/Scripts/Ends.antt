-- ===== src/Scripts/Ends.antt =====
-- How a script ends, by one rule for each way to build an action.
use lambpie.Common.{Bool-cases, inl, inr, ◌≡◌, refl, ℕ, Bool, true, false}
use lambpie.Scripts.Effects.{
  Exn, Answer, given, refused, Ended, returned, exited, raised, no_fuel, World, Session, Act, ◌>>=◌,
  continue, pure, exit, throw, branch, perform, or_throw, recover, handled,
}

module _ {C : Type 0} {R : C → Type 0} {W : World R} where
  -- How it ends: not by fuel, and if it returns, then `Q` holds of the result and the session.
  abbrev pub EndsIn : {A : Type 0} → (A → Session W → Type 0) → Ended A × Session W → Type 0
  EndsIn Q (returned a, s) = Q a s
  EndsIn Q (no_fuel, s) = ⊥
  EndsIn Q _ = Unit

  pub record Ends {A : Type 0} (Q : A → Session W → Type 0) (m : Act W A) : Type 0 where
    pub at : (s : Session W) → EndsIn Q (m s)

  module _ {A B : Type 0} {Q : A → Session W → Type 0} (T : B → Session W → Type 0) where
    EndsIn-continue :
        (r : Ended A × Session W) (f : A → Act W B)
        → EndsIn Q r
        → ((a : A) (s : Session W) → Q a s → EndsIn T (f a s))
        → EndsIn T (continue r f)
    EndsIn-continue (returned a, s) f h k = k a s h
    EndsIn-continue (exited n, s) f h k = tt
    EndsIn-continue (raised e, s) f h k = tt
    EndsIn-continue (no_fuel, s) f h k = absurd h

    pub Ends-bind :
        {m : Act W A} {f : A → Act W B} → Ends Q m → ((a : A) → Ends T (f a)) → Ends T (m >>= f)
    unfolding ◌>>=◌
    Ends-bind {m} {f} km kf = record {
      at = λ s. EndsIn-continue (m s) f (km.at s) λ a t _. (kf a).at t;
    }

  module _ {A : Type 0} {Q : A → Session W → Type 0} where
    pub Ends-exit : (n : ℕ) → Ends Q (exit n)
    unfolding exit
    Ends-exit n = record { at = λ s. tt }

    pub Ends-throw : (e : Exn) → Ends Q (throw e)
    unfolding throw
    Ends-throw e = record { at = λ s. tt }

    pub Ends-branch : (b : Bool) (m n : Act W A) → Ends Q m → Ends Q n → Ends Q (branch b m n)
    unfolding branch
    Ends-branch true m n km kn = km
    Ends-branch false m n km kn = kn

  pub Ends-branch-eq :
      {A : Type 0} {Q : A → Session W → Type 0} (b : Bool) (m n : Act W A)
      → (b ≡ true → Ends Q m)
      → (b ≡ false → Ends Q n)
      → Ends Q (branch b m n)
  unfolding branch
  Ends-branch-eq true m n km kn = km refl
  Ends-branch-eq false m n km kn = kn refl

  -- any result in any session
  abbrev pub Somehow : {A : Type 0} → A → Session W → Type 0
  Somehow a s = Unit

  pub Ends-pure : {A : Type 0} (a : A) → Ends Somehow (pure a)
  unfolding pure
  Ends-pure a = record { at = λ s. tt }

  pub Ends-perform : (c : C) → Ends Somehow (perform c)
  unfolding perform
  Ends-perform c = record { at = λ s. tt }

  pub Ends-or_throw : {A : Type 0} (r : Answer A) → Ends Somehow (or_throw r)
  unfolding or_throw
  Ends-or_throw (given a) = Ends-pure a
  Ends-or_throw (refused e) = Ends-throw e

module _ {C : Type 0} {R : C → Type 0} {W : World R} {A B : Type 0} where
  pub Ends-then :
      {T : B → Session W → Type 0} (m : Act W A) (f : A → Act W B)
      → Ends Somehow m
      → ((a : A) → Ends T (f a))
      → Ends T (m >>= f)
  Ends-then {T} m f km kf = Ends-bind T km kf

  pub Ends-given :
      {T : B → Session W → Type 0} (r : Answer A) (f : A → Act W B)
      → ((a : A) → Ends T (f a))
      → Ends T (or_throw r >>= f)
  Ends-given r f kf = Ends-then _ _ (Ends-or_throw r) kf

module _ {C : Type 0} {R : C → Type 0} {W : World R} {B : Type 0} where
  pub Ends-call :
      {T : B → Session W → Type 0} (c : C) (f : R c → Act W B)
      → ((a : R c) → Ends T (f a))
      → Ends T (perform c >>= f)
  Ends-call c f kf = Ends-then _ _ (Ends-perform c) kf

module _ {C : Type 0} {R : C → Type 0} {W : World R} {B : Type 0} {T : B → Session W → Type 0} where
  -- a call whose answer matters, from whatever state of the world
  pub Ends-answer :
      (c : C) (f : R c → Act W B)
      → ((w : W.State) → Ends T (f (W.answer c w).0))
      → Ends T (perform c >>= f)
  unfolding perform ◌>>=◌
  Ends-answer c f kf = record { at = λ s. (kf s.world).at _ }

module _ {C : Type 0} {R : C → Type 0} {W : World R} {A B : Type 0} where
  -- a first action whose result matters
  pub Ends-result :
      {Q : A → Session W → Type 0} {T : B → Session W → Type 0} {m : Act W A} {f : A → Act W B}
      → Ends Q m
      → ((a : A) (s : Session W) → Q a s → Ends T (f a))
      → Ends T (m >>= f)
  unfolding ◌>>=◌
  Ends-result {Q} {T} {m} {f} km kf = record {
    at = λ s. EndsIn-continue {Q = Q} T (m s) f (km.at s) λ a t q. (kf a t q).at t;
  }

  -- the answer to a call that may raise, with the equation
  pub Ends-given-eq :
      {T : B → Session W → Type 0} (r : Answer A) (f : A → Act W B)
      → ((a : A) → r ≡ given a → Ends T (f a))
      → Ends T (or_throw r >>= f)
  unfolding or_throw ◌>>=◌ pure throw
  Ends-given-eq (given a) f k = record { at = λ s. (k a refl).at s }
  Ends-given-eq (refused e) f k = record { at = λ s. tt }

module _ {C : Type 0} {R : C → Type 0} {W : World R} {A : Type 0} where
  weaken :
      {Q T : A → Session W → Type 0} (r : Ended A × Session W)
      → EndsIn Q r
      → ((a : A) (s : Session W) → Q a s → T a s)
      → EndsIn T r
  weaken (returned a, s) h k = k a s h
  weaken (exited n, s) h k = tt
  weaken (raised e, s) h k = tt
  weaken (no_fuel, s) h k = h

  pub Ends-weaken :
      {Q T : A → Session W → Type 0} {m : Act W A}
      → Ends Q m
      → ((a : A) (s : Session W) → Q a s → T a s)
      → Ends T m
  Ends-weaken {Q} {T} {m} km k = record { at = λ s. weaken {Q = Q} {T = T} (m s) (km.at s) k }

module _ {C : Type 0} {R : C → Type 0} {W : World R} {A : Type 0} {Q : A → Session W → Type 0} where
  handled-EndsIn :
      (caught : Exn → Bool) (handler : Act W A) (r : Ended A × Session W)
      → EndsIn Q r
      → Ends Q handler
      → EndsIn Q (handled caught handler r)
  unfolding handled branch throw
  handled-EndsIn caught handler (returned a, s) h k = h
  handled-EndsIn caught handler (exited n, s) h k = tt
  handled-EndsIn caught handler (no_fuel, s) h k = h
  handled-EndsIn caught handler (raised e, s) h k = elim (Bool-cases (caught e)) [
    | inl taken ↦ rw taken (k.at s)
    | inr passed ↦ rw passed tt
  ]

  pub Ends-recover :
      (caught : Exn → Bool) (m handler : Act W A)
      → Ends Q m
      → Ends Q handler
      → Ends Q (recover caught m handler)
  unfolding recover
  Ends-recover caught m handler km kh = record {
    at = λ s. handled-EndsIn caught handler (m s) (km.at s) kh;
  }

-- ===== src/Scripts/Triples.antt =====
-- What a script does from the sessions that meet a condition, by one rule for each way to build an
-- action: the condition after it where it returns, and the one on its status where it stops.
use lambpie.Common.{Bool-cases, inl, inr, ◌≡◌, refl, ℕ, Bool, true, false, ◌∷◌}
use lambpie.Scripts.Effects.{
  Exn, Answer, given, refused, Ended, returned, exited, raised, no_fuel, World, Session, Act, ◌>>=◌,
  continue, pure, exit, throw, branch, perform, or_throw, recover, handled,
}

module _ {C : Type 0} {R : C → Type 0} {W : World R} where
  -- the session after a call
  abbrev pub after : (c : C) → Session W → Session W
  after c s = record { world = (W.answer c s.world).1; calls = c ∷ s.calls }

  -- an exception that nothing catches is status 1
  abbrev pub Post :
      {A : Type 0}
      → (A → Session W → Type 0)
      → (ℕ → Session W → Type 0)
      → Ended A × Session W
      → Type 0
  Post Q S (returned a, s) = Q a s
  Post Q S (exited n, s) = S n s
  Post Q S (raised e, s) = S 1 s
  Post Q S (no_fuel, s) = ⊥

  pub record Triple {A : Type 0} (B : Session W → Type 0) (Q : A → Session W → Type 0)
      (S : ℕ → Session W → Type 0) (m : Act W A) : Type 0 where
    pub at : (s : Session W) → B s → Post Q S (m s)

module _ {C : Type 0} {R : C → Type 0} {W : World R} (S : ℕ → Session W → Type 0) where
  Post-continue :
      {A B : Type 0} (Q : A → Session W → Type 0) (T : B → Session W → Type 0)
      (r : Ended A × Session W) (f : A → Act W B)
      → Post Q S r
      → ((a : A) (s : Session W) → Q a s → Post T S (f a s))
      → Post T S (continue r f)
  Post-continue Q T (returned a, s) f h k = k a s h
  Post-continue Q T (exited n, s) f h k = h
  Post-continue Q T (raised e, s) f h k = h
  Post-continue Q T (no_fuel, s) f h k = h

  handled-Post :
      {A : Type 0} (Q : A → Session W → Type 0) (caught : Exn → Bool) (handler : Act W A)
      (r : Ended A × Session W)
      → Post Q S r
      → Triple (S 1) Q S handler
      → Post Q S (handled caught handler r)
  unfolding handled branch throw
  handled-Post Q caught handler (returned a, s) h k = h
  handled-Post Q caught handler (exited n, s) h k = h
  handled-Post Q caught handler (no_fuel, s) h k = h
  handled-Post Q caught handler (raised e, s) h k = elim (Bool-cases (caught e)) [
    | inl taken ↦ rw taken (k.at s h)
    | inr passed ↦ rw passed h
  ]

module _ {C : Type 0} {R : C → Type 0} {W : World R} {S : ℕ → Session W → Type 0} where
  module _ {A B : Type 0} {I : Session W → Type 0} {T : B → Session W → Type 0} where
    pub Triple-bind :
        (Q : A → Session W → Type 0) {m : Act W A} {f : A → Act W B}
        → Triple I Q S m
        → ((a : A) → Triple (Q a) T S (f a))
        → Triple I T S (m >>= f)
    unfolding ◌>>=◌
    Triple-bind Q {m} {f} km kf = record {
      at = λ s i. Post-continue S Q T (m s) f (km.at s i) λ a t q. (kf a).at t q;
    }

    -- the answer to a call that may raise
    pub Triple-given :
        (r : Answer A) (f : A → Act W B)
        → ((s : Session W) → I s → S 1 s)
        → ((a : A) → r ≡ given a → Triple I T S (f a))
        → Triple I T S (or_throw r >>= f)
    unfolding or_throw ◌>>=◌ pure throw
    Triple-given (given a) f stop k = record { at = λ s i. (k a refl).at s i }
    Triple-given (refused e) f stop k = record { at = λ s i. stop s i }

  module _ {A : Type 0} {I : Session W → Type 0} {Q : A → Session W → Type 0} where
    pub Triple-pure : (a : A) → ((s : Session W) → I s → Q a s) → Triple I Q S (pure a)
    unfolding pure
    Triple-pure a k = record { at = k }

    pub Triple-exit : (n : ℕ) → ((s : Session W) → I s → S n s) → Triple I Q S (exit n)
    unfolding exit
    Triple-exit n k = record { at = k }

    pub Triple-throw : (e : Exn) → ((s : Session W) → I s → S 1 s) → Triple I Q S (throw e)
    unfolding throw
    Triple-throw e k = record { at = k }

    pub Triple-or_throw :
        (r : Answer A)
        → ((s : Session W) → I s → S 1 s)
        → ((a : A) → r ≡ given a → (s : Session W) → I s → Q a s)
        → Triple I Q S (or_throw r)
    unfolding or_throw
    Triple-or_throw (given a) stop k = Triple-pure a (k a refl)
    Triple-or_throw (refused e) stop k = Triple-throw e stop

    pub Triple-branch :
        (b : Bool) (m n : Act W A)
        → (b ≡ true → Triple I Q S m)
        → (b ≡ false → Triple I Q S n)
        → Triple I Q S (branch b m n)
    unfolding branch
    Triple-branch true m n km kn = km refl
    Triple-branch false m n km kn = kn refl

    pub Triple-recover :
        (caught : Exn → Bool) (m handler : Act W A)
        → Triple I Q S m
        → Triple (S 1) Q S handler
        → Triple I Q S (recover caught m handler)
    unfolding recover
    Triple-recover caught m handler km kh = record {
      at = λ s i. handled-Post S Q caught handler (m s) (km.at s i) kh;
    }

module _ {C : Type 0} {R : C → Type 0} {W : World R} {S : ℕ → Session W → Type 0} {B : Type 0}
    {I : Session W → Type 0} {T : B → Session W → Type 0} where
  -- a call, and what is done with its answer
  pub Triple-call :
      (c : C) (f : R c → Act W B) (Q : R c → Session W → Type 0)
      → ((s : Session W) → I s → Q (W.answer c s.world).0 (after c s))
      → ((a : R c) → Triple (Q a) T S (f a))
      → Triple I T S (perform c >>= f)
  unfolding perform ◌>>=◌
  Triple-call c f Q k kf = record { at = λ s i. (kf _).at _ (k s i) }

module _ {C : Type 0} {R : C → Type 0} {W : World R} {A : Type 0} where
  stops :
      (Q : A → Session W → Type 0) {S T : ℕ → Session W → Type 0} (r : Ended A × Session W)
      → Post Q S r
      → ((n : ℕ) (s : Session W) → S n s → T n s)
      → Post Q T r
  stops Q (returned a, s) h k = h
  stops Q (exited n, s) h k = k n s h
  stops Q (raised e, s) h k = k 1 s h
  stops Q (no_fuel, s) h k = h

  after-Post :
      {Q T : A → Session W → Type 0} (S : ℕ → Session W → Type 0) (r : Ended A × Session W)
      → Post Q S r
      → ((a : A) (s : Session W) → Q a s → T a s)
      → Post T S r
  after-Post S (returned a, s) h k = k a s h
  after-Post S (exited n, s) h k = h
  after-Post S (raised e, s) h k = h
  after-Post S (no_fuel, s) h k = h

  -- a weaker condition after
  pub Triple-after :
      {I : Session W → Type 0} {Q T : A → Session W → Type 0} {S : ℕ → Session W → Type 0}
      {m : Act W A}
      → Triple I Q S m
      → ((a : A) (s : Session W) → Q a s → T a s)
      → Triple I T S m
  Triple-after {Q} {T} {S} {m} km k = record {
    at = λ s i. after-Post {Q = Q} {T = T} S (m s) (km.at s i) k;
  }

  -- what the condition before says of no session
  pub Triple-fact :
      {F : Type 0} {I : Session W → Type 0} {Q : A → Session W → Type 0}
      {S : ℕ → Session W → Type 0} {m : Act W A}
      → (F → Triple I Q S m)
      → Triple (λ s. F × I s) Q S m
  Triple-fact k = record { at = λ s (f, i). (k f).at s i }

  -- a stronger condition before, and a weaker one where it stops
  pub Triple-weaken :
      {I J : Session W → Type 0} {Q : A → Session W → Type 0} {S T : ℕ → Session W → Type 0}
      {m : Act W A}
      → Triple I Q S m
      → ((s : Session W) → J s → I s)
      → ((n : ℕ) (s : Session W) → S n s → T n s)
      → Triple J Q T m
  Triple-weaken {Q} {S} {T} {m} km k l = record {
    at = λ s j. stops Q {S = S} {T = T} (m s) (km.at s (k s j)) l;
  }

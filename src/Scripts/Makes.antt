-- ===== src/Scripts/Makes.antt =====
-- The calls that a script makes, by one rule for each way to build an action.
use lambpie.Common.{
  ◌≡◌, refl, ap, ◌∙◌, sym, ℕ, Bool, true, false, List, [], ◌∷◌, ◌++◌, All, All-append,
}
use mathlib.Core.List.{append_assoc}
use lambpie.Scripts.Effects.{
  Exn, Answer, given, refused, Ended, returned, exited, raised, no_fuel, World, Session, Act, ◌>>=◌,
  continue, pure, exit, throw, branch, perform, or_throw,
}

abbrev pub Always : {A : Type 0} → A → Type 0
Always a = Unit

-- of what is returned
abbrev pub Returns : {A : Type 0} → (A → Type 0) → Ended A → Type 0
Returns Q (returned a) = Q a
Returns Q _ = Unit

-- The world answers so, in some state.
abbrev pub Asked : {C : Type 0} {R : C → Type 0} → (W : World R) → (c : C) → R c → Type 0
Asked W c a = (w : W.State) × ((W.answer c w).0 ≡ a)

module _ {C : Type 0} {R : C → Type 0} {W : World R} where
  -- The calls from one session to a later one.
  abbrev pub Since : (List C → Type 0) → Session W → Session W → Type 0
  Since P s t = (new : List C) × (t.calls ≡ new ++ s.calls) × P new

  -- Whatever the world answers, every call of the action has `P`, and what it returns has `Q`.
  pub record Makes {A : Type 0} (P : C → Type 0) (Q : A → Type 0) (m : Act W A) : Type 0 where
    pub at : (s : Session W) → Since (All P) s (m s).1 × Returns Q (m s).0

  module _ {A : Type 0} {P : C → Type 0} {Q : A → Type 0} where
    pub Makes-pure : (a : A) → Q a → Makes P Q (pure a)
    unfolding pure
    Makes-pure a q = record { at = λ s. (([], refl, tt), q) }

    pub Makes-exit : (n : ℕ) → Makes P Q (exit n)
    unfolding exit
    Makes-exit n = record { at = λ s. (([], refl, tt), tt) }

    pub Makes-throw : (e : Exn) → Makes P Q (throw e)
    unfolding throw
    Makes-throw e = record { at = λ s. (([], refl, tt), tt) }

    pub Makes-or_throw : (r : Answer A) → ((a : A) → r ≡ given a → Q a) → Makes P Q (or_throw r)
    unfolding or_throw
    Makes-or_throw (given a) q = Makes-pure a (q a refl)
    Makes-or_throw (refused e) q = Makes-throw e

    pub Makes-branch :
        (b : Bool) (m n : Act W A)
        → (b ≡ true → Makes P Q m)
        → (b ≡ false → Makes P Q n)
        → Makes P Q (branch b m n)
    unfolding branch
    Makes-branch true m n km kn = km refl
    Makes-branch false m n km kn = kn refl

  pub Makes-perform : {P : C → Type 0} (c : C) → P c → Makes P Always (perform c)
  unfolding perform
  Makes-perform c p = record { at = λ s. ((c ∷ [], refl, (p, tt)), tt) }

  pub Makes-Asked : {P : C → Type 0} (c : C) → P c → Makes P (Asked W c) (perform c)
  unfolding perform
  Makes-Asked c p = record { at = λ s. ((c ∷ [], refl, (p, tt)), (s.world, refl)) }

  module _ {A B : Type 0} {P : C → Type 0} {Q : A → Type 0} {T : B → Type 0} where
    Since-continue :
        (s : Session W) (r : Ended A × Session W) (f : A → Act W B)
        → Since (All P) s r.1 × Returns Q r.0
        → ((a : A) → Q a → Makes P T (f a))
        → Since (All P) s (continue r f).1 × Returns T (continue r f).0
    Since-continue s (returned a, t) f ((new, e, h), q) k =
        let ((new', e', h'), q') = (k a q).at t in
        (
          (
            new' ++ new,
            e' ∙ ap (λ l. new' ++ l) e ∙ sym (append_assoc new' new s.calls),
            All-append P new' new h' h,
          ),
          q',
        )
    Since-continue s (exited n, t) f h k = (h.0, tt)
    Since-continue s (raised e, t) f h k = (h.0, tt)
    Since-continue s (no_fuel, t) f h k = (h.0, tt)

    pub Makes-bind :
        {m : Act W A} {f : A → Act W B}
        → Makes P Q m
        → ((a : A) → Q a → Makes P T (f a))
        → Makes P T (m >>= f)
    unfolding ◌>>=◌
    Makes-bind {m} {f} km kf = record { at = λ s. Since-continue s (m s) f (km.at s) kf }

module _ {C : Type 0} {R : C → Type 0} {W : World R} {A B : Type 0} where
  -- where nothing is known of the first action's result
  pub Makes-then :
      {P : C → Type 0} {T : B → Type 0} (m : Act W A) (f : A → Act W B)
      → Makes P Always m
      → ((a : A) → Makes P T (f a))
      → Makes P T (m >>= f)
  Makes-then m f km kf = Makes-bind km (λ a _. kf a)

  -- the answer to a call that may raise
  pub Makes-given :
      {P : C → Type 0} {T : B → Type 0} (r : Answer A) (f : A → Act W B)
      → ((a : A) → Makes P T (f a))
      → Makes P T (or_throw r >>= f)
  Makes-given r f kf = Makes-bind (Makes-or_throw {Q = Always} r (λ _ _. tt)) (λ a _. kf a)

module _ {C : Type 0} {R : C → Type 0} {W : World R} {B : Type 0} where
  -- a call, and what is done with its answer
  pub Makes-call :
      {P : C → Type 0} {T : B → Type 0} (c : C) (f : R c → Act W B)
      → P c
      → ((a : R c) → Makes P T (f a))
      → Makes P T (perform c >>= f)
  Makes-call c f p kf = Makes-then _ _ (Makes-perform c p) kf

  -- a call whose answer matters
  pub Makes-ask :
      {P : C → Type 0} {T : B → Type 0} (c : C) (f : R c → Act W B)
      → P c
      → ((a : R c) → Asked W c a → Makes P T (f a))
      → Makes P T (perform c >>= f)
  Makes-ask c f p kf = Makes-bind (Makes-Asked c p) kf

module _ {C : Type 0} {R : C → Type 0} {W : World R} {A B : Type 0} where
  pub Makes-given-eq :
      {P : C → Type 0} {T : B → Type 0} (r : Answer A) (f : A → Act W B)
      → ((a : A) → r ≡ given a → Makes P T (f a))
      → Makes P T (or_throw r >>= f)
  Makes-given-eq r f kf = Makes-bind (Makes-or_throw r (λ _ e. e)) kf

module _ {C : Type 0} {R : C → Type 0} {W : World R} {A : Type 0} where
  pub Makes-weaken :
      {P : C → Type 0} {Q T : A → Type 0} {m : Act W A}
      → Makes P Q m
      → ((a : A) → Q a → T a)
      → Makes P T m
  Makes-weaken {P} {Q} {T} {m} km k = record {
    at = λ s. ((km.at s).0, returns (m s).0 (km.at s).1);
  }
    where
      returns : (r : Ended A) → Returns Q r → Returns T r
      returns (returned a) h = k a h
      returns (exited n) h = tt
      returns (raised e) h = tt
      returns no_fuel h = tt

-- One of two kinds of run: for some `b` every call has `P b`.
abbrev pub Choice : {C : Type 0} → (Bool → C → Type 0) → List C → Type 0
Choice P new = (b : Bool) × All (P b) new

module _ {C : Type 0} {R : C → Type 0} {W : World R} (P : Bool → C → Type 0) where
  both : (s t : Session W) → Since (All (P true)) s t → Since (Choice P) s t
  both s t (new, e, h) = (new, e, (true, h))

  pub record Chooses {A : Type 0} (m : Act W A) : Type 0 where
    pub at : (s : Session W) → Since (Choice P) s (m s).1

  pub Chooses-Makes :
      {A : Type 0} {Q : A → Type 0} {m : Act W A} (b : Bool) → Makes (P b) Q m → Chooses m
  Chooses-Makes b k = record { at = λ s. let ((new, e, h), _) = k.at s in (new, e, (b, h)) }

  module _ {A B : Type 0} {Q : A → Type 0} where
    Choice-continue :
        (s : Session W) (r : Ended A × Session W) (f : A → Act W B)
        → ((b : Bool) → Since (All (P b)) s r.1 × Returns Q r.0)
        → ((a : A) → Q a → Chooses (f a))
        → Since (Choice P) s (continue r f).1
    Choice-continue s (returned a, t) f h k =
        let (new', e', (b, h')) = (k a (h true).1).at t in
        let ((new, e, old), q) = h b in
        (
          new' ++ new,
          e' ∙ ap (λ l. new' ++ l) e ∙ sym (append_assoc new' new s.calls),
          (b, All-append (P b) new' new h' old),
        )
    Choice-continue s (exited n, t) f h k = both s t (h true).0
    Choice-continue s (raised e, t) f h k = both s t (h true).0
    Choice-continue s (no_fuel, t) f h k = both s t (h true).0

    -- a first action that is of both kinds
    pub Chooses-bind :
        {m : Act W A} {f : A → Act W B}
        → ((b : Bool) → Makes (P b) Q m)
        → ((a : A) → Q a → Chooses (f a))
        → Chooses (m >>= f)
    unfolding ◌>>=◌
    Chooses-bind {m} {f} km kf = record {
      at = λ s. Choice-continue s (m s) f (λ b. (km b).at s) kf;
    }

  pub Chooses-branch :
      {A : Type 0} (b : Bool) (m n : Act W A)
      → (b ≡ true → Chooses m)
      → (b ≡ false → Chooses n)
      → Chooses (branch b m n)
  unfolding branch
  Chooses-branch true m n km kn = km refl
  Chooses-branch false m n km kn = kn refl

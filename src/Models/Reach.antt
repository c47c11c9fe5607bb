-- ===== src/Models/Reach.antt =====
-- `_collect_reachable_shapes` finds exactly the shapes that the selected operations reach.
use lambpie.Common.{
  ℕ, zero, suc, ◌<◌, ◌≡◌, ◌⊎◌, inl, inr, refl, sym, String, true, false, Bool-cases, Option, none,
  some, List, [], ◌∷◌, arith,
}
use mathlib.Core.Path.{subst}
use lambpie.Common.Dict.{Dict, lookup}
use lambpie.Models.Shapes.{
  Shape, and_then, Outcome, reached, undefined_shape, unknown_operation, no_fuel, mem, refs, each,
  visit_shape, walk,
}
use lambpie.Models.Members.{uncons}
use lambpie.Models.Unvisited.{
  Within, mem-head, mem-tail, unvisited, unvisited-Within, unvisited-visit,
}

none_in : {A : Type 0} (x : String) → mem x [] ≡ true → A
unfolding mem
none_in x m = cc

first : (x : String) (xs : List String) → Within (x ∷ []) (x ∷ xs)
unfolding mem
first x xs y m = ground (arith, m)

-- The name is one of `names`, or a shape reached from them refers to it.
pub data Reach (shapes : Dict Shape) (names : List String) : String → Type 0 where
  start : (x : String) → mem x names ≡ true → Reach shapes names x
  follow :
      (x y : String) (shape : Shape)
      → Reach shapes names x
      → lookup x shapes ≡ some shape
      → mem y (refs shape) ≡ true
      → Reach shapes names y

module _ (shapes : Dict Shape) where
  -- `x` has a shape, and all names that it refers to are in `r`
  abbrev pub IsClosed : String → List String → Type 0
  IsClosed x r = (shape : Shape) × (lookup x shapes ≡ some shape) × Within (refs shape) r

  -- Of the names that were not in `old` before: they are reached, and their shapes refer to names
  -- in `r` only.
  pub record Walked (names old r : List String) : Type 0 where
    pub grows : Within old r
    pub visited : Within names r
    pub closed : (x : String) → mem x r ≡ true → (mem x old ≡ true) ⊎ IsClosed x r
    pub sound : (x : String) → mem x r ≡ true → (mem x old ≡ true) ⊎ Reach shapes names x

  -- An undefined shape is reached and is not in the model; the fuel does not run out.
  abbrev pub Post : List String → List String → Outcome → Type 0
  Post names old (reached r) = Walked names old r
  Post names old (undefined_shape x) = Reach shapes names x × (lookup x shapes ≡ none)
  Post names old _ = ⊥

module _ (shapes : Dict Shape) where
  widen :
      (xs ys : List String) → Within xs ys → (x : String) → Reach shapes xs x → Reach shapes ys x
  widen xs ys w x (start _ m) = start x (w x m)
  widen xs ys w x (follow y _ shape p e m) = follow y x shape (widen xs ys w y p) e m

  -- what the references of a shape reach, its name reaches
  through :
      (name : String) (shape : Shape)
      → lookup name shapes ≡ some shape
      → (x : String) → Reach shapes (refs shape) x
      → Reach shapes (name ∷ []) x
  through name shape e x (start _ m) = follow name x shape (start name (mem-head name [])) e m
  through name shape e x (follow y _ sh p e' m) = follow y x sh (through name shape e y p) e' m

  -- the walks of a loop, one after the other
  join :
      (x : String) (xs old r : List String) (o : Outcome)
      → Walked shapes (x ∷ []) old r
      → Post shapes xs r o
      → Post shapes (x ∷ xs) old o
  join x xs old r (reached r') h k = record {
    grows = λ y m. k.grows y (h.grows y m);
    visited = λ y m. elim (uncons y x xs m) [
      | inl e ↦ k.grows y (h.visited y (subst (λ z. mem z (x ∷ []) ≡ true) (sym e) (mem-head x [])))
      | inr m' ↦ k.visited y m'
    ];
    closed = λ y m. elim (k.closed y m) [
      | inl before ↦ elim (h.closed y before) [
        | inl m' ↦ inl m'
        | inr c ↦ inr (c.0, c.1, λ z p. k.grows z (c.2 z p))
      ]
      | inr c ↦ inr c
    ];
    sound = λ y m. elim (k.sound y m) [
      | inl before ↦ elim (h.sound y before) [
        | inl m' ↦ inl m'
        | inr p ↦ inr (widen (x ∷ []) (x ∷ xs) (first x xs) y p)
      ]
      | inr p ↦ inr (widen xs (x ∷ xs) (λ z n. mem-tail z x xs n) y p)
    ];
  }
  join x xs old r (undefined_shape y) h k =
      (widen xs (x ∷ xs) (λ z n. mem-tail z x xs n) y k.0, k.1)
  join x xs old r unknown_operation h k = absurd k
  join x xs old r no_fuel h k = absurd k

  then-Post :
      (x : String) (xs old : List String) (o : Outcome) (g : List String → Outcome)
      → Post shapes (x ∷ []) old o
      → ((r : List String) → Walked shapes (x ∷ []) old r → Post shapes (x ∷ xs) old (g r))
      → Post shapes (x ∷ xs) old (and_then o g)
  unfolding and_then
  then-Post x xs old (reached r) g h k = k r h
  then-Post x xs old (undefined_shape y) g h k = (widen (x ∷ []) (x ∷ xs) (first x xs) y h.0, h.1)
  then-Post x xs old unknown_operation g h k = absurd h
  then-Post x xs old no_fuel g h k = absurd h

  -- a loop whose walks are right while fewer than `bound` shapes are left
  pub each-Post :
      (f : String → List String → Outcome) (bound : ℕ)
      → ((x : String) (old : List String)
          → unvisited shapes old < bound
          → Post shapes (x ∷ []) old (f x old))
      → (xs old : List String) → unvisited shapes old < bound
      → Post shapes xs old (each f xs old)
  unfolding each mem
  each-Post f bound k [] old h = record {
    grows = λ y m. m;
    visited = λ y m. cc;
    closed = λ y m. inl m;
    sound = λ y m. inl m;
  }
  each-Post f bound k (x ∷ xs) old h = then-Post x xs old (f x old) _ (k x old h) λ r w.
      join x xs old r _ w
        (each-Post f bound k xs r (omega (arith, h, unvisited-Within shapes old r w.grows)))

  -- `name` itself, once its shape's references are walked
  entered :
      (name : String) (shape : Shape) (old r : List String)
      → lookup name shapes ≡ some shape
      → Walked shapes (refs shape) (name ∷ old) r
      → Walked shapes (name ∷ []) old r
  entered name shape old r e h = record {
    grows = λ y m. h.grows y (mem-tail y name old m);
    visited = λ y m. elim (uncons y name [] m) [
      | inl s ↦ subst (λ z. mem z r ≡ true) (sym s) (h.grows name (mem-head name old))
      | inr n ↦ none_in y n
    ];
    closed = λ y m. elim (h.closed y m) [
      | inl before ↦ elim (uncons y name old before) [
        | inl s ↦ inr (shape, subst (λ z. lookup z shapes ≡ some shape) (sym s) e, h.visited)
        | inr m' ↦ inl m'
      ]
      | inr c ↦ inr c
    ];
    sound = λ y m. elim (h.sound y m) [
      | inl before ↦ elim (uncons y name old before) [
        | inl s ↦ inr (start y (subst (λ z. mem z (name ∷ []) ≡ true) (sym s) (mem-head name [])))
        | inr m' ↦ inl m'
      ]
      | inr p ↦ inr (through name shape e y p)
    ];
  }

  visit_shape-Post :
      (f : String → List String → Outcome) (bound : ℕ)
      → ((x : String) (old : List String)
          → unvisited shapes old < bound
          → Post shapes (x ∷ []) old (f x old))
      → (name : String) (old : List String) (o : Option Shape) → lookup name shapes ≡ o
      → mem name old ≡ false
      → unvisited shapes old < suc bound
      → Post shapes (name ∷ []) old (visit_shape f name o old)
  unfolding visit_shape
  visit_shape-Post f bound k name old none e m h = (start name (mem-head name []), e)
  visit_shape-Post f bound k name old (some shape) e m h =
      under (each f (refs shape) (name ∷ old)) (
        each-Post f bound k (refs shape) (name ∷ old)
          (omega (arith, h, unvisited-visit shapes name shape old e m)))
    where
      under :
          (o : Outcome) → Post shapes (refs shape) (name ∷ old) o → Post shapes (name ∷ []) old o
      under (reached r) p = entered name shape old r e p
      under (undefined_shape y) p = (through name shape e y p.0, p.1)
      under unknown_operation p = absurd p
      under no_fuel p = absurd p

  pub walk-Post :
      (n : ℕ) (x : String) (old : List String)
      → unvisited shapes old < n
      → Post shapes (x ∷ []) old (walk n shapes x old)
  unfolding walk
  walk-Post zero x old h = omega (arith, h)
  walk-Post (suc n) x old h = elim (Bool-cases (mem x old)) [
    | inl there ↦ rw there record {
      grows = λ y m. m;
      visited = λ y m. elim (uncons y x [] m) [
        | inl s ↦ subst (λ z. mem z old ≡ true) (sym s) there
        | inr m' ↦ none_in y m'
      ];
      closed = λ y m. inl m;
      sound = λ y m. inl m;
    }
    | inr new ↦
        rw new (visit_shape-Post (walk n shapes) n (walk-Post n) x old (lookup x shapes) refl new h)
  ]

-- ===== src/Models/Needs.antt =====
-- Which shapes the selected operations need, by the model alone.
use lambpie.Common.{
  sym, false, ◌≡◌, ◌⊎◌, inl, inr, refl, String, true, Bool-cases, Option, none, some, List, [], ◌∷◌,
  ◌++◌, map,
}
use mathlib.Core.Path.{subst}
use lambpie.Common.Dict.{Dict, lookup, contains}
use lambpie.Models.Shapes.{
  Shape, structure, list_of, map_of, scalar, Operation, Model, mem, refs, optional, roots, select,
  known, all_known,
}
use lambpie.Models.Members.{in_front, behind, uncons, left, right, split}
use lambpie.Models.Reach.{Reach, start, follow}

-- a member of the structure has the shape `y`
abbrev pub HasMember : Dict String → String → Type 0
HasMember [] y = ⊥
HasMember ((f, x) ∷ members) y = (y ≡ x) ⊎ HasMember members y

-- the shape is made of `y`
abbrev pub IsMadeOf : Shape → String → Type 0
IsMadeOf (structure members) y = HasMember members y
IsMadeOf (list_of member) y = y ≡ member
IsMadeOf (map_of key value) y = (y ≡ key) ⊎ (y ≡ value)
IsMadeOf (scalar t) y = ⊥

-- no selection selects all operations
abbrev pub IsSelected : Option (List String) → String → Type 0
IsSelected none n = Unit
IsSelected (some names) n = mem n names ≡ true

-- as its input, its output or one of its errors
abbrev pub Mentions : Operation → String → Type 0
Mentions op x = (op.input ≡ some x) ⊎ ((op.output ≡ some x) ⊎ (mem x op.errors ≡ true))

abbrev pub IsMentioned : Option (List String) → Dict Operation → String → Type 0
IsMentioned names [] x = ⊥
IsMentioned names ((n, op) ∷ ops) x = (IsSelected names n × Mentions op x) ⊎ IsMentioned names ops x

pub data Needs (model : Model) (names : Option (List String)) : String → Type 0 where
  mentioned : (x : String) → IsMentioned names model.operations x → Needs model names x
  made_of :
      (x y : String) (shape : Shape)
      → Needs model names x
      → lookup x model.shapes ≡ some shape
      → IsMadeOf shape y
      → Needs model names y

members_in :
    (members : Dict String) (y : String)
    → HasMember members y
    → mem y (map (λ m. m.1) members) ≡ true
members_in [] y h = absurd h
members_in ((f, x) ∷ members) y (inl e) = in_front y x _ e
members_in ((f, x) ∷ members) y (inr h) = behind y x _ (members_in members y h)

members_out :
    (members : Dict String) (y : String)
    → mem y (map (λ m. m.1) members) ≡ true
    → HasMember members y
unfolding mem
members_out [] y h = cc
members_out ((f, x) ∷ members) y h = elim (uncons y x _ h) [
  | inl e ↦ inl e
  | inr n ↦ inr (members_out members y n)
]

refs_in : (shape : Shape) (y : String) → IsMadeOf shape y → mem y (refs shape) ≡ true
unfolding refs
refs_in (structure members) y h = members_in members y h
refs_in (list_of x) y h = in_front y x [] h
refs_in (map_of k v) y (inl e) = in_front y k _ e
refs_in (map_of k v) y (inr e) = behind y k _ (in_front y v [] e)
refs_in (scalar t) y h = absurd h

refs_out : (shape : Shape) (y : String) → mem y (refs shape) ≡ true → IsMadeOf shape y
unfolding refs mem
refs_out (structure members) y h = members_out members y h
refs_out (list_of x) y h = elim (uncons y x [] h) [ inl e ↦ e | inr n ↦ cc ]
refs_out (map_of k v) y h = elim (uncons y k (v ∷ []) h) [
  | inl e ↦ inl e
  | inr n ↦ elim (uncons y v [] n) [ inl e ↦ inr e | inr o ↦ cc ]
]
refs_out (scalar t) y h = cc

optional_in : (o : Option String) (x : String) → o ≡ some x → mem x (optional o) ≡ true
unfolding optional
optional_in none x e = cc
optional_in (some y) x e = in_front x y [] cc

optional_out : (o : Option String) (x : String) → mem x (optional o) ≡ true → o ≡ some x
unfolding optional mem
optional_out none x e = cc
optional_out (some y) x e = elim (uncons x y [] e) [ inl s ↦ cc | inr n ↦ cc ]

-- the names that one operation adds to the roots
operation_in :
    (op : Operation) (rest : List String) (x : String)
    → Mentions op x ⊎ (mem x rest ≡ true)
    → mem x (optional op.input ++ (optional op.output ++ (op.errors ++ rest))) ≡ true
operation_in op rest x (inl (inl e)) = left x (optional op.input) _ (optional_in op.input x e)
operation_in op rest x (inl (inr (inl e))) =
    right x (optional op.input) _ (left x (optional op.output) _ (optional_in op.output x e))
operation_in op rest x (inl (inr (inr e))) =
    right x (optional op.input) _ (right x (optional op.output) _ (left x op.errors rest e))
operation_in op rest x (inr m) =
    right x (optional op.input) _ (right x (optional op.output) _ (right x op.errors rest m))

operation_out :
    (op : Operation) (rest : List String) (x : String)
    → mem x (optional op.input ++ (optional op.output ++ (op.errors ++ rest))) ≡ true
    → Mentions op x ⊎ (mem x rest ≡ true)
operation_out op rest x m = elim (split x (optional op.input) _ m) [
  | inl i ↦ inl (inl (optional_out op.input x i))
  | inr n ↦ elim (split x (optional op.output) _ n) [
    | inl o ↦ inl (inr (inl (optional_out op.output x o)))
    | inr p ↦ elim (split x op.errors rest p) [ inl e ↦ inl (inr (inr e)) | inr r ↦ inr r ]
  ]
]

roots_in :
    (names : Option (List String)) (ops : Dict Operation) (x : String)
    → IsMentioned names ops x
    → mem x (roots (select names ops)) ≡ true
unfolding roots select
roots_in names [] x h = absurd h
roots_in none ((n, op) ∷ ops) x (inl h) = operation_in op _ x (inl h.1)
roots_in none ((n, op) ∷ ops) x (inr h) = operation_in op _ x (inr (roots_in none ops x h))
roots_in (some names) ((n, op) ∷ ops) x (inl h) = rw h.0 (operation_in op _ x (inl h.1))
roots_in (some names) ((n, op) ∷ ops) x (inr h) =
    let rest = roots_in (some names) ops x h in
    elim (Bool-cases (mem n names)) [
      | inl chosen ↦ rw chosen (operation_in op _ x (inr rest))
      | inr other ↦ rw other rest
    ]

roots_out :
    (names : Option (List String)) (ops : Dict Operation) (x : String)
    → mem x (roots (select names ops)) ≡ true
    → IsMentioned names ops x
unfolding roots select mem
roots_out none [] x m = cc
roots_out (some names) [] x m = cc
roots_out none ((n, op) ∷ ops) x m = elim (operation_out op (roots (select none ops)) x m) [
  | inl h ↦ inl (tt, h)
  | inr r ↦ inr (roots_out none ops x r)
]
roots_out (some names) ((n, op) ∷ ops) x m = elim (Bool-cases (mem n names)) [
  | inl chosen ↦ elim (operation_out op (roots (select (some names) ops)) x (rw chosen at m)) [
    | inl h ↦ inl (chosen, h)
    | inr r ↦ inr (roots_out (some names) ops x r)
  ]
  | inr other ↦ inr (roots_out (some names) ops x (rw other at m))
]

module _ (model : Model) (names : Option (List String)) where
  pub Reach-Needs :
      (x : String)
      → Reach model.shapes (roots (select names model.operations)) x
      → Needs model names x
  Reach-Needs x (start _ m) = mentioned x (roots_out names model.operations x m)
  Reach-Needs x (follow y _ shape p e m) =
      made_of y x shape (Reach-Needs y p) e (refs_out shape x m)

  pub Needs-Reach :
      (x : String)
      → Needs model names x
      → Reach model.shapes (roots (select names model.operations)) x
  Needs-Reach x (mentioned _ m) = start x (roots_in names model.operations x m)
  Needs-Reach x (made_of y _ shape p e m) = follow y x shape (Needs-Reach y p) e (refs_in shape x m)

-- every operation that was asked for is in the model
abbrev pub AreKnown : Option (List String) → Dict Operation → Type 0
AreKnown none ops = Unit
AreKnown (some names) ops = (n : String) → mem n names ≡ true → contains n ops ≡ true

all_known-AreKnown :
    (names : List String) (ops : Dict Operation)
    → all_known names ops ≡ true
    → AreKnown (some names) ops
unfolding all_known mem
all_known-AreKnown [] ops k n m = cc
all_known-AreKnown (x ∷ names) ops k n m = elim (Bool-cases (contains x ops)) [
  | inl good ↦ elim (uncons n x names m) [
    | inl e ↦ subst (λ z. contains z ops ≡ true) (sym e) good
    | inr later ↦ all_known-AreKnown names ops (rw good at k) n later
  ]
  | inr bad ↦ absurd (clash (rw bad at k))
]
  where
    clash : false ≡ true → ⊥
    clash e = cc

all_known-not :
    (names : List String) (ops : Dict Operation)
    → all_known names ops ≡ false
    → ¬ AreKnown (some names) ops
unfolding all_known
all_known-not [] ops k h = cc
all_known-not (x ∷ names) ops k h = elim (Bool-cases (contains x ops)) [
  | inl good ↦ all_known-not names ops (rw good at k) (λ n m. h n (behind n x names m))
  | inr bad ↦ let hit = h x (in_front x x names refl) in cc
]

pub known-AreKnown :
    (names : Option (List String)) (ops : Dict Operation)
    → known names ops ≡ true
    → AreKnown names ops
unfolding known
known-AreKnown none ops k = tt
known-AreKnown (some names) ops k = all_known-AreKnown names ops k

pub known-not :
    (names : Option (List String)) (ops : Dict Operation)
    → known names ops ≡ false
    → ¬ AreKnown names ops
unfolding known
known-not none ops k h = cc
known-not (some names) ops k h = all_known-not names ops k h

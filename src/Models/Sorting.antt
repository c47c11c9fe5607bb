-- ===== src/Models/Sorting.antt =====
-- Python's `sorted`, of a set of names and of the items of a dict by their names.
use lambpie.Common.{
  ◌≡◌, inl, inr, refl, sym, String, Bool, true, false, Bool-cases, List, [], ◌∷◌, if◌then◌else◌,
  ◌==◌, ◌||◌, eq_iff, arith,
}
use mathlib.Core.List.{Perm}
use mathlib.Core.List.Perm
use lambpie.Common.Dict.{Dict}
use lambpie.Models.Order.{text_lt, order_cases, asymmetric}
use lambpie.Models.Shapes.{mem}

unfoldable pub insert_name : String → List String → List String
insert_name x [] = x ∷ []
insert_name x (y ∷ ys) =
    let rest = insert_name x ys in
    if text_lt y x then y ∷ rest else if y == x then y ∷ ys else x ∷ y ∷ ys

-- `sorted(set(names))`
unfoldable pub sorted_set : List String → List String
sorted_set [] = []
sorted_set (x ∷ xs) = insert_name x (sorted_set xs)

module _ {V : Type 0} where
  unfoldable pub insert_item : String × V → Dict V → Dict V
  insert_item x [] = x ∷ []
  insert_item x (y ∷ ys) =
      let rest = insert_item x ys in if text_lt y.0 x.0 then y ∷ rest else x ∷ y ∷ ys

  -- `sorted(items, key=lambda t: t[0])`
  unfoldable pub sorted_items : Dict V → Dict V
  sorted_items [] = []
  sorted_items (x ∷ xs) = insert_item x (sorted_items xs)

-- every name is less than the next one
unfoldable pub IsAscending : List String → Type 0
IsAscending [] = Unit
IsAscending (x ∷ []) = Unit
IsAscending (x ∷ y ∷ ys) = (text_lt x y ≡ true) × IsAscending (y ∷ ys)

-- less than the first name, if there is one
unfoldable Under : String → List String → Type 0
Under x [] = Unit
Under x (y ∷ ys) = text_lt x y ≡ true

under : (x : String) (ys : List String) → Under x ys → IsAscending ys → IsAscending (x ∷ ys)
unfolding Under IsAscending
under x [] h a = tt
under x (y ∷ ys) h a = (h, a)

above : (y : String) (ys : List String) → IsAscending (y ∷ ys) → Under y ys × IsAscending ys
unfolding Under IsAscending
above y [] a = (tt, tt)
above y (z ∷ ys) a = a

insert_name-Under :
    (x y : String) (ys : List String) → text_lt y x ≡ true → Under y ys → Under y (insert_name x ys)
unfolding Under insert_name
insert_name-Under x y [] l u = l
insert_name-Under x y (z ∷ ys) l u = elim (Bool-cases (text_lt z x)) [
  | inl e ↦ rw e u
  | inr e ↦ rw e (elim (Bool-cases (z == x)) [ inl f ↦ rw f u | inr f ↦ rw f l ])
]

clash : {b : Bool} → b ≡ true → b ≡ false → ⊥
clash e f = cc

insert_name-IsAscending :
    (x : String) (ys : List String) → IsAscending ys → IsAscending (insert_name x ys)
unfolding insert_name IsAscending
insert_name-IsAscending x [] a = tt
insert_name-IsAscending x (y ∷ ys) a = elim (Bool-cases (text_lt y x)) [
  | inl e ↦ rw e (
      let (u, b) = above y ys a in
      under y _ (insert_name-Under x y ys e u) (insert_name-IsAscending x ys b))
  | inr e ↦ rw e (elim (Bool-cases (y == x)) [
    | inl f ↦ rw f a
    | inr f ↦ rw f (elim (order_cases x y) [
      | inl l ↦ (l, a)
      | inr (inl q) ↦ absurd (clash ((eq_iff y x).1 (sym q)) f)
      | inr (inr l) ↦ absurd (clash l e)
    ])
  ])
]

mem-insert_name :
    (n x : String) (ys : List String) → mem n (insert_name x ys) ≡ ((n == x) || mem n ys)
unfolding insert_name mem
mem-insert_name n x [] = refl
mem-insert_name n x (y ∷ ys) =
    ground (arith, mem-insert_name n x ys, eq_iff n y, eq_iff n x, eq_iff y x)

-- in order, each once, and just the names given
pub sorted_set-IsAscending : (xs : List String) → IsAscending (sorted_set xs)
unfolding sorted_set IsAscending
sorted_set-IsAscending [] = tt
sorted_set-IsAscending (x ∷ xs) = insert_name-IsAscending x _ (sorted_set-IsAscending xs)

pub mem-sorted_set : (n : String) (xs : List String) → mem n (sorted_set xs) ≡ mem n xs
unfolding sorted_set mem
mem-sorted_set n [] = refl
mem-sorted_set n (x ∷ xs) = rw (mem-insert_name n x (sorted_set xs), mem-sorted_set n xs) refl

module _ {V : Type 0} where
  -- no name is greater than the next one
  unfoldable pub IsOrdered : Dict V → Type 0
  IsOrdered [] = Unit
  IsOrdered (x ∷ []) = Unit
  IsOrdered (x ∷ y ∷ ys) = (text_lt y.0 x.0 ≡ false) × IsOrdered (y ∷ ys)

  -- not greater than the first name, if there is one
  unfoldable Before : String × V → Dict V → Type 0
  Before x [] = Unit
  Before x (y ∷ ys) = text_lt y.0 x.0 ≡ false

  before : (x : String × V) (ys : Dict V) → Before x ys → IsOrdered ys → IsOrdered (x ∷ ys)
  unfolding Before IsOrdered
  before x [] h a = tt
  before x (y ∷ ys) h a = (h, a)

  behind_first : (y : String × V) (ys : Dict V) → IsOrdered (y ∷ ys) → Before y ys × IsOrdered ys
  unfolding Before IsOrdered
  behind_first y [] a = (tt, tt)
  behind_first y (z ∷ ys) a = a

  insert_item-Before :
      (x y : String × V) (ys : Dict V)
      → text_lt x.0 y.0 ≡ false
      → Before y ys
      → Before y (insert_item x ys)
  unfolding Before insert_item
  insert_item-Before x y [] l u = l
  insert_item-Before x y (z ∷ ys) l u = elim (Bool-cases (text_lt z.0 x.0)) [
    | inl e ↦ rw e u
    | inr e ↦ rw e l
  ]

  insert_item-IsOrdered :
      (x : String × V) (ys : Dict V) → IsOrdered ys → IsOrdered (insert_item x ys)
  unfolding insert_item IsOrdered
  insert_item-IsOrdered x [] a = tt
  insert_item-IsOrdered x (y ∷ ys) a = elim (Bool-cases (text_lt y.0 x.0)) [
    | inl e ↦ rw e (
        let (u, b) = behind_first y ys a in
        before y _ (insert_item-Before x y ys (asymmetric y.0 x.0 e) u)
          (insert_item-IsOrdered x ys b))
    | inr e ↦ rw e (e, a)
  ]

  insert_item-Perm : (x : String × V) (ys : Dict V) → Perm (insert_item x ys) (x ∷ ys)
  unfolding insert_item
  insert_item-Perm x [] = Perm.refl _
  insert_item-Perm x (y ∷ ys) = elim (Bool-cases (text_lt y.0 x.0)) [
    | inl e ↦ rw e (Perm.trans (Perm.cons y (insert_item-Perm x ys)) (Perm.swap _ _ ys))
    | inr e ↦ rw e (Perm.refl _)
  ]

  pub sorted_items-Perm : (d : Dict V) → IsOrdered (sorted_items d) × Perm (sorted_items d) d
  unfolding sorted_items IsOrdered
  sorted_items-Perm [] = (tt, Perm.refl _)
  sorted_items-Perm (x ∷ xs) =
      let (a, p) = sorted_items-Perm xs in
      (insert_item-IsOrdered x _ a, Perm.trans (insert_item-Perm x _) (Perm.cons x p))

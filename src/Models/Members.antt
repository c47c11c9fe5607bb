-- ===== src/Models/Members.antt =====
-- Names in a list, as `_walk` tests for them.
use lambpie.Common.{
  ◌≡◌, ◌⊎◌, inl, inr, refl, String, true, Bool-cases, List, [], ◌∷◌, ◌++◌, arith, eq_iff, eq_refl,
  ◌==◌,
}
use lambpie.Models.Shapes.{mem}

pub in_front : (x y : String) (ys : List String) → x ≡ y → mem x (y ∷ ys) ≡ true
unfolding mem
in_front x y ys e = rw (e, eq_refl y) refl

pub behind : (x y : String) (ys : List String) → mem x ys ≡ true → mem x (y ∷ ys) ≡ true
unfolding mem
behind x y ys m = ground (arith, m)

pub uncons : (x y : String) (ys : List String) → mem x (y ∷ ys) ≡ true → (x ≡ y) ⊎ (mem x ys ≡ true)
unfolding mem
uncons x y ys h = elim (Bool-cases (x == y)) [
  | inl hit ↦ inl ((eq_iff x y).0 hit)
  | inr miss ↦ inr (rw miss at h)
]

pub left : (x : String) (xs ys : List String) → mem x xs ≡ true → mem x (xs ++ ys) ≡ true
unfolding mem
left x [] ys m = cc
left x (y ∷ xs) ys m = elim (uncons x y xs m) [
  | inl e ↦ in_front x y (xs ++ ys) e
  | inr n ↦ behind x y (xs ++ ys) (left x xs ys n)
]

pub right : (x : String) (xs ys : List String) → mem x ys ≡ true → mem x (xs ++ ys) ≡ true
right x [] ys m = m
right x (y ∷ xs) ys m = behind x y (xs ++ ys) (right x xs ys m)

pub split :
    (x : String) (xs ys : List String)
    → mem x (xs ++ ys) ≡ true
    → (mem x xs ≡ true) ⊎ (mem x ys ≡ true)
split x [] ys m = inr m
split x (y ∷ xs) ys m = elim (uncons x y (xs ++ ys) m) [
  | inl e ↦ inl (in_front x y xs e)
  | inr n ↦ elim (split x xs ys n) [ inl a ↦ inl (behind x y xs a) | inr b ↦ inr b ]
]
